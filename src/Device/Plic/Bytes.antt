-- ===== src/Device/Plic/Bytes.antt =====
-- The PLIC gives bytes, and its arrays keep the sizes that its other operations rely on.
use rv64_emulator.Common.{
  ℕ, ◌-◌, ◌*◌, ◌/◌, ◌≤◌, ◌≡◌, refl, ◌∙◌, List, [], ◌∷◌, length, get_or, length-set, take, ltb,
  of_le_bytes, if◌then◌else◌, done, Bool, true, false, not, ◌==◌, arith, lt→ltb, le→leb, ◌<◌,
}
use rv64_emulator.Common.{
  refused, fault, map_access, or_fault, Option, some, none, AllBytes, words_to_bytes, write_bytes,
  words_to_bytes-AllBytes, bytes_to_words, length-bytes_to_words,
}
use rv64_emulator.Device.Mmio.Laws.{
  HoldsBytes, Loaded, Stored, holds_bytes, loads_if, stores_if, copies_out,
}
use rv64_emulator.Device.Plic.Listening.{get_elem?_total}
use rv64_emulator.Device.Plic.{
  Plic, PlicContext, Target, priority_word, pending_word, enable_word, threshold_word, claim_word,
  nothing, update_ext, get_interrupt, new_plic, best_below, load, store, load_target, store_target,
  target, plic_device, plic_max_devices, len_group_by_word, with_context, context_at, word_bits,
  set_bit, clear_bit,
}

-- Two contexts, all the words of the pending bits, and no more sources than priorities.
pub record IsWhole (p : Plic) : Type 0 where
  pub two_contexts : length p.contexts ≡ 2
  pub pending_size : length p.pending ≡ len_group_by_word
  pub few_sources : p.dev_num ≤ plic_max_devices

with_context-IsWhole :
    (p : Plic) (i : ℕ) (ctx : PlicContext) → IsWhole p → IsWhole (with_context p i ctx)
with_context-IsWhole p i ctx v = record {
  two_contexts = length-set p.contexts i ctx ∙ v.two_contexts;
  pending_size = v.pending_size;
  few_sources = v.few_sources;
}

load_target-Loaded :
    (p : Plic) (t : Target) (n : ℕ) → IsWhole p → Loaded IsWhole n (load_target p t n)
unfolding load_target
load_target-Loaded p (priority_word i) n v =
    copies_out IsWhole (words_to_bytes 4 p.priority) (i * 4) n p
      (words_to_bytes-AllBytes 4 p.priority) v
load_target-Loaded p (pending_word i) n v =
    copies_out IsWhole (words_to_bytes 4 p.pending) (i * 4) n p
      (words_to_bytes-AllBytes 4 p.pending) v
load_target-Loaded p (enable_word ctx i) n v =
    let words : List ℕ = (context_at p ctx).enable in
    copies_out IsWhole (words_to_bytes 4 words) (i * 4) n p (words_to_bytes-AllBytes 4 words) v
load_target-Loaded p (threshold_word ctx) n v =
    let words : List ℕ = (context_at p ctx).threshold ∷ [] in
    copies_out IsWhole (words_to_bytes 4 words) (0 * 4) n p (words_to_bytes-AllBytes 4 words) v
load_target-Loaded p (claim_word ctx) n v =
    let words : List ℕ = (context_at p ctx).claim ∷ [] in
    loads_if IsWhole n
      (ltb ((context_at p ctx).claim / word_bits) (length (context_at p ctx).claimed)) _ fault
      (copies_out IsWhole (words_to_bytes 4 words) (0 * 4) n _ (words_to_bytes-AllBytes 4 words)
        (with_context-IsWhole p ctx _ v))
      tt
load_target-Loaded p nothing n v = tt

-- A store that fills an array of words of the same size.
fills :
    (f : List ℕ → Plic) (words : List ℕ) (o : Option (List ℕ))
    → ((ws : List ℕ) → length ws ≡ length words → IsWhole (f ws))
    → Stored IsWhole (map_access f (map_access (bytes_to_words 4 (length words)) (or_fault o)))
fills f words none h = tt
fills f words (some m) h = h _ (length-bytes_to_words 4 (length words) m)

store_target-Stored :
    (p : Plic) (t : Target) (n : ℕ) (buf : List ℕ)
    → IsWhole p
    → Stored IsWhole (store_target p t n buf)
unfolding store_target
store_target-Stored p (priority_word i) n buf v =
    fills (λ ws. record p { priority = ws }) p.priority
      (write_bytes (words_to_bytes 4 p.priority) (i * 4) buf n)
      λ ws e. record {
        two_contexts = v.two_contexts;
        pending_size = v.pending_size;
        few_sources = v.few_sources;
      }
store_target-Stored p (pending_word i) n buf v =
    fills (λ ws. record p { pending = ws }) p.pending
      (write_bytes (words_to_bytes 4 p.pending) (i * 4) buf n)
      λ ws e. record {
        two_contexts = v.two_contexts;
        pending_size = e ∙ v.pending_size;
        few_sources = v.few_sources;
      }
store_target-Stored p (enable_word ctx i) n buf v =
    let words : List ℕ = (context_at p ctx).enable in
    fills (λ ws. with_context p ctx (record (context_at p ctx) { enable = ws })) words
      (write_bytes (words_to_bytes 4 words) (i * 4) buf n) λ ws e. with_context-IsWhole p ctx _ v
store_target-Stored p (threshold_word ctx) n buf v =
    let words : List ℕ = (context_at p ctx).threshold ∷ [] in
    fills (λ ws. with_context p ctx (record (context_at p ctx) { threshold = get_or ws 0 0 })) words
      (write_bytes (words_to_bytes 4 words) (0 * 4) buf n) λ ws e. with_context-IsWhole p ctx _ v
store_target-Stored p (claim_word ctx) n buf v =
    let c : PlicContext = context_at p ctx in
    let val : ℕ = of_le_bytes (take 4 buf) in
    stores_if IsWhole (ltb (length buf) 4) fault _ tt (
      stores_if IsWhole (ltb (p.dev_num - 1) val) refused _ tt (
        stores_if IsWhole (ltb (val / word_bits) (length c.claimed)) _ fault
          (with_context-IsWhole p ctx _ v) tt))
store_target-Stored p nothing n buf v = tt

load-Loaded : (p : Plic) (addr n : ℕ) → IsWhole p → Loaded IsWhole n (load p addr n)
unfolding load
load-Loaded p addr n v = load_target-Loaded p (target p addr) n v

store-Stored :
    (p : Plic) (addr n : ℕ) (buf : List ℕ)
    → IsWhole p
    → AllBytes buf
    → Stored IsWhole (store p addr n buf)
unfolding store
store-Stored p addr n buf v b = store_target-Stored p (target p addr) n buf v

pub plic_device-HoldsBytes : HoldsBytes plic_device IsWhole
plic_device-HoldsBytes = holds_bytes IsWhole plic_device load-Loaded store-Stored

length-set_bit : (words : List ℕ) (i : ℕ) → length (set_bit words i) ≡ length words
length-set_bit words i = length-set words (i / word_bits) _

length-clear_bit : (words : List ℕ) (i : ℕ) → length (clear_bit words i) ≡ length words
length-clear_bit words i = length-set words (i / word_bits) _

driven :
    (b : Bool) (words : List ℕ) (i : ℕ)
    → length (if b then set_bit (clear_bit words i) i else clear_bit words i) ≡ length words
driven true words i = length-set_bit (clear_bit words i) i ∙ length-clear_bit words i
driven false words i = length-clear_bit words i

-- The line of a source below 1024 is driven, and a context is asked, without a fault.
pub update_ext-IsWhole :
    (p : Plic) (src : ℕ) (fired : Bool)
    → IsWhole p
    → src < 1024
    → (p' : Plic) × (update_ext p src fired ≡ done p') × IsWhole p'
unfolding update_ext
update_ext-IsWhole p src fired v h = (
  record p {
    pending = if fired then set_bit (clear_bit p.pending src) src else clear_bit p.pending src;
  },
  rw (update_ext, lt→ltb (src / word_bits) (length p.pending) (omega (arith, v.pending_size))) refl,
  record {
    two_contexts = v.two_contexts;
    pending_size = driven fired p.pending src ∙ v.pending_size;
    few_sources = v.few_sources;
  },
)

pub get_interrupt-IsWhole :
    (p : Plic) (i : ℕ)
    → IsWhole p
    → i < 2
    → (waits : Bool) × (p' : Plic) × (get_interrupt p i ≡ done (waits, p')) × IsWhole p'
unfolding get_interrupt
get_interrupt-IsWhole p i v h =
    let (ctx, at_i) = get_elem?_total p.contexts i (omega (arith, v.two_contexts)) in
    let best : ℕ = (best_below p ctx p.dev_num).1 in
    (
      not (best == 0),
      with_context p i (record ctx { claim = best }),
      rw (get_interrupt, at_i, le→leb p.dev_num plic_max_devices v.few_sources) refl,
      with_context-IsWhole p i _ v,
    )

-- The PLIC of one hart with S mode, as it is made.
pub new_plic-IsWhole : (n : ℕ) → n < 1024 → IsWhole (new_plic 1 true n)
unfolding new_plic
new_plic-IsWhole n h = record {
  two_contexts = refl;
  pending_size = refl;
  few_sources = omega arith;
}
