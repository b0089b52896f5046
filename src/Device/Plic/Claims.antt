-- ===== src/Device/Plic/Claims.antt =====
-- A claim of a context, and what the context is offered after it.
use rv64_emulator.Common.{ℕ, zero, suc, ◌/◌, ◌<◌, ◌≡◌, ◌≢◌, refl, sym, ap, ◌∙◌, arith, inl, inr}
use rv64_emulator.Common.{Bool, true, ◌==◌, ==_self, leb, not}
use rv64_emulator.Common.{
  List, [], ◌∷◌, length, get_elem?, get_or, get_or-set_self, set, done, Access-cases, some,
}
use rv64_emulator.Device.Plic.{
  Plic, PlicContext, word_bits, has_bit, set_bit, context_at, is_candidate, best_below,
  get_interrupt, claim_word, target, load, copy_out, load_target, empty_context, plic_max_devices,
  with_context,
}
use rv64_emulator.Device.Plic.Laws.{best_below-IsBest}
use rv64_emulator.Device.Plic.Pending.{has_bit-set_bit}

-- A source that the context has claimed is not offered to it.
claimed_not_best :
    (p : Plic) (ctx : PlicContext) (n s : ℕ)
    → has_bit ctx.claimed s ≡ true
    → s ≢ 0
    → (best_below p ctx n).1 ≢ s
unfolding is_candidate
claimed_not_best p ctx n s claimed nonzero_s e =
    let b = best_below-IsBest p ctx n in ground (arith, b.real)

get_elem?-set_self :
    {A : Type 0} (xs : List A) (i : ℕ) (v : A) → i < length xs → get_elem? (set xs i v) i ≡ some v
get_elem?-set_self [] i v h = absurd (omega arith)
get_elem?-set_self (x ∷ xs) zero v h = refl
get_elem?-set_self (x ∷ xs) (suc i) v h = get_elem?-set_self xs i v (omega arith)

get_elem?_bound :
    {A : Type 0} (xs : List A) (i : ℕ) {v : A} → get_elem? xs i ≡ some v → i < length xs
get_elem?_bound [] i e = cc
get_elem?_bound (x ∷ xs) zero e = omega arith
get_elem?_bound (x ∷ xs) (suc i) e = omega (arith, get_elem?_bound xs i e)

-- What GetInterrupt answers, and what it leaves in the claim register.
pub get_interrupt_offers :
    (p p' : Plic) (i : ℕ) (ctx : PlicContext) (waits : Bool)
    → get_elem? p.contexts i ≡ some ctx
    → get_interrupt p i ≡ done (waits, p')
    → (waits ≡ not ((best_below p ctx p.dev_num).1 == 0))
      × ((context_at p' i).claim ≡ (best_below p ctx p.dev_num).1)
unfolding get_interrupt
get_interrupt_offers p p' i ctx waits at_i e =
    let best = (best_below p ctx p.dev_num).1 in
    let ctx' : PlicContext = record ctx { claim = best } in
    let kept : get_or (set p.contexts i ctx') i empty_context ≡ ctx' =
      get_or-set_self p.contexts i ctx' empty_context (get_elem?_bound p.contexts i at_i) in
    let fits : leb p.dev_num plic_max_devices ≡ true = ground arith in
    let answer : (waits ≡ not (best == 0)) × (p'.contexts ≡ set p.contexts i ctx') = ground arith in
    (answer.0, ap (λ cs. (get_or cs i empty_context).claim) answer.1 ∙ ap (λ c. c.claim) kept)

-- What a load of the claim register does.
load_claimed :
    (p p' : Plic) (i bytes : ℕ) (out : List ℕ)
    → load_target p (claim_word i) bytes ≡ done (out, p')
    → ((context_at p i).claim / word_bits < length (context_at p i).claimed)
      × (p'
          ≡ with_context p i (record (context_at p i) {
            claimed = set_bit (context_at p i).claimed (context_at p i).claim;
          }))
unfolding load_target
load_claimed p p' i bytes out e =
    let c = context_at p i in
    elim (Access-cases (copy_out (c.claim ∷ []) 0 bytes)) [
      | inl (o, q) ↦ ground arith
      | inr (inl q) ↦ ground arith
      | inr (inr q) ↦ ground arith
    ]

-- A load of the claim register of a context that was offered a source claims it: after the load the
-- context is not offered that source.
pub get_interrupt-claimed :
    (p p' p'' : Plic) (addr i bytes : ℕ) (out : List ℕ) (waits : Bool)
    → target p addr ≡ claim_word i
    → i < length p.contexts
    → (context_at p i).claim ≢ 0
    → load p addr bytes ≡ done (out, p')
    → get_interrupt p' i ≡ done (waits, p'')
    → (context_at p'' i).claim ≢ (context_at p i).claim
unfolding load
get_interrupt-claimed p p' p'' addr i bytes out waits at_claim h ne e f =
    let c = context_at p i in
    let claimed' = set_bit c.claimed c.claim in
    let (within, is_p') =
      load_claimed p p' i bytes out (ap (λ t. load_target p t bytes) (sym at_claim) ∙ e) in
    let ctx' : PlicContext = record c { claimed = claimed' } in
    let at_i : get_elem? p'.contexts i ≡ some ctx' =
      ap (λ q. get_elem? q.contexts i) is_p' ∙ get_elem?-set_self p.contexts i ctx' h in
    let (answer, offered) = get_interrupt_offers p' p'' i ctx' waits at_i f in
    λ same.
      claimed_not_best p' ctx' p'.dev_num c.claim
        (has_bit-set_bit c.claimed c.claim c.claim within ∙ rw (==_self c.claim) refl) ne
        (sym offered ∙ same)
