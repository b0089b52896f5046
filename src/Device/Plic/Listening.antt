-- ===== src/Device/Plic/Listening.antt =====
-- A context that takes the interrupts of one source, which is the only one that may be pending.
use rv64_emulator.Common.{
  List, [], ◌∷◌, zero, suc, ℕ, ◌<◌, ◌≤◌, ◌/◌, ◌≡◌, ◌≢◌, refl, sym, ap, ◌∙◌, arith, inl, inr,
}
use rv64_emulator.Common.{
  Bool, true, false, Bool-cases, ◌==◌, ==_iff, ltb, leb, le→leb, lt→ltb, not,
}
use rv64_emulator.Common.{length, length-set, get_elem?, get_or, done, Access-cases, some}
use rv64_emulator.Device.Plic.{
  Plic, PlicContext, word_bits, plic_max_devices, has_bit, is_candidate, best_below, update_ext,
  get_interrupt,
}
use rv64_emulator.Device.Plic.Laws.{best_below-IsBest}

-- The context takes interrupts of source 1, and no other source is pending.
pub record Listens (p : Plic) (ctx : PlicContext) : Type 0 where
  pub sources : (1 < p.dev_num) × (p.dev_num ≤ plic_max_devices)
  pub priority : (0 < get_or p.priority 1 0) × (ctx.threshold ≤ get_or p.priority 1 0)
  pub enabled : has_bit ctx.enable 1 ≡ true
  pub unclaimed : has_bit ctx.claimed 1 ≡ false
  pub alone : (j : ℕ) → j ≢ 1 → has_bit p.pending j ≡ false

candidate_pending :
    (p : Plic) (ctx : PlicContext) (i : ℕ)
    → is_candidate p ctx i ≡ true
    → has_bit p.pending i ≡ true
unfolding is_candidate
candidate_pending p ctx i h = ground arith

-- A candidate is source 1, and source 1 is pending.
only_candidate :
    (p : Plic) (ctx : PlicContext) (i : ℕ)
    → Listens p ctx
    → is_candidate p ctx i ≡ true
    → (i ≡ 1) × (has_bit p.pending 1 ≡ true)
only_candidate p ctx i l h =
    let pending = candidate_pending p ctx i h in
    elim (Bool-cases (i == 1)) [
      | inl e ↦ let is_1 = (==_iff i 1).0 e in (is_1, ap (has_bit p.pending) (sym is_1) ∙ pending)
      | inr n ↦ cc (pending, l.alone i (λ q. ground arith))
    ]

source_candidate :
    (p : Plic) (ctx : PlicContext)
    → Listens p ctx
    → has_bit p.pending 1 ≡ true
    → is_candidate p ctx 1 ≡ true
unfolding is_candidate
source_candidate p ctx l e = rw (le→leb _ _ l.priority.1, e, l.enabled, l.unclaimed) refl

-- It is offered an interrupt exactly if source 1 is pending.
pub offered_iff_pending :
    (p : Plic) (ctx : PlicContext) (b : Bool)
    → Listens p ctx
    → has_bit p.pending 1 ≡ b
    → not ((best_below p ctx p.dev_num).1 == 0) ≡ b
offered_iff_pending p ctx true l e =
    let best = best_below-IsBest p ctx p.dev_num in
    let at_least = best.highest 1 l.sources.0 (source_candidate p ctx l e) in
    elim best.real [
      | inl q ↦ absurd (omega (arith, at_least, l.priority.0, ap (λ b. b.0) q))
      | inr (below, is, same, positive) ↦ rw ((only_candidate p ctx _ l is).0) refl
    ]
offered_iff_pending p ctx false l e =
    let best = best_below-IsBest p ctx p.dev_num in
    elim best.real [
      | inl q ↦ rw q refl
      | inr (below, is, same, positive) ↦ cc (e, (only_candidate p ctx _ l is).1)
    ]

-- An update of a source and a question of a context that the arrays hold are answered, and touch
-- the pending bits, or the context, alone.
pub update_ext_total :
    (p : Plic) (src_id : ℕ) (fired : Bool)
    → src_id / word_bits < length p.pending
    → (p' : Plic) × (update_ext p src_id fired ≡ done p')
      × (p'.contexts ≡ p.contexts)
      × (p'.priority ≡ p.priority)
      × (p'.dev_num ≡ p.dev_num)
unfolding update_ext
update_ext_total p src_id fired h =
    let small : ltb (src_id / word_bits) (length p.pending) ≡ true = lt→ltb _ _ h in
    elim (Access-cases (update_ext p src_id fired)) [
      | inl (p', e) ↦ (p', e, ground arith, ground arith, ground arith)
      | inr (inl e) ↦ ground arith
      | inr (inr e) ↦ ground arith
    ]

pub get_interrupt_total :
    (p : Plic) (i : ℕ) (ctx : PlicContext)
    → get_elem? p.contexts i ≡ some ctx
    → p.dev_num ≤ plic_max_devices
    → (waits : Bool) × (p' : Plic) × (get_interrupt p i ≡ done (waits, p'))
      × (length p'.contexts ≡ length p.contexts)
      × (p'.dev_num ≡ p.dev_num)
unfolding get_interrupt
get_interrupt_total p i ctx at_i h =
    let fits : leb p.dev_num plic_max_devices ≡ true = le→leb _ _ h in
    elim (Access-cases (get_interrupt p i)) [
      | inl ((waits, p'), e) ↦ (
        waits,
        p',
        e,
        ground (
          arith,
          length-set p.contexts i (record ctx { claim = (best_below p ctx p.dev_num).1 }),
        ),
        ground arith,
      )
      | inr (inl e) ↦ ground arith
      | inr (inr e) ↦ ground arith
    ]

pub get_elem?_total :
    {A : Type 0} (xs : List A) (i : ℕ) → i < length xs → (a : A) × (get_elem? xs i ≡ some a)
get_elem?_total [] i h = absurd (omega arith)
get_elem?_total (x ∷ xs) zero h = (x, refl)
get_elem?_total (x ∷ xs) (suc i) h = get_elem?_total xs i (omega arith)
