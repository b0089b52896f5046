-- ===== src/Device/Plic.antt =====
-- `class Plic`: include/device/plic.h and src/device/plic.cc. A `memcpy` at a register copies into
-- or out of the array that holds it, and past its end is a fault.
pub mod Laws
pub mod Bytes
pub mod Pending
pub mod Claims
pub mod Listening
use rv64_emulator.Common.{ℕ, zero, suc, ◌+◌, ◌-◌, ◌*◌, ◌/◌, ◌%◌, ◌^◌, List, [], ◌∷◌, map, replicate}
use rv64_emulator.Common.{
  length, get_elem?, get_or, set, take, Option, none, some, Bool, true, false,
}
use rv64_emulator.Common.{◌&&◌, ◌||◌, not, leb, ltb, ◌==◌, nonzero, if◌then◌else◌}
use rv64_emulator.Common.{bit_and, bit_or, Access, done, refused, fault, or_fault, map_access}
use rv64_emulator.Common.{
  read_bytes, write_bytes, le_bytes, of_le_bytes, words_to_bytes, bytes_to_words,
}
use rv64_emulator.Bits.Digit.{bit_not}
use rv64_emulator.Device.Mmio.{MmioDevice}

-- kPlicMaxDevices, kWordBits and kLenGroupByWord
abbrev pub plic_max_devices : ℕ
plic_max_devices = 1024

abbrev pub word_bits : ℕ
word_bits = 32

abbrev pub len_group_by_word : ℕ
len_group_by_word = 32

abbrev pub source_priority_base : ℕ
source_priority_base = 0

abbrev pub pending_base : ℕ
pending_base = 0x1000

abbrev pub enable_base : ℕ
enable_base = 0x2000

abbrev pub context_base : ℕ
context_base = 0x200000

abbrev pub context_end : ℕ
context_end = 0x3ffffff

abbrev pub enable_bytes_per_hart : ℕ
enable_bytes_per_hart = 0x80

abbrev pub context_bytes_per_hart : ℕ
context_bytes_per_hart = 0x1000

pub record PlicContext : Type 0 where
  pub mmode : Bool
  pub id : ℕ
  pub claim : ℕ
  pub threshold : ℕ
  pub enable : List ℕ
  pub claimed : List ℕ

-- `PlicContext{}`
abbrev pub empty_context : PlicContext
empty_context = record {
  mmode = false;
  id = 0;
  claim = 0;
  threshold = 0;
  enable = replicate len_group_by_word 0;
  claimed = replicate len_group_by_word 0;
}

pub record Plic : Type 0 where
  pub contexts : List PlicContext
  pub dev_num : ℕ
  pub priority : List ℕ
  pub pending : List ℕ

-- The constructor's loop: context `i` of `n`, each with its id, every second one in M mode if the
-- harts have S mode.
abbrev pub contexts_from : Bool → ℕ → ℕ → List PlicContext
contexts_from is_s_mode i zero = []
contexts_from is_s_mode i (suc n) =
    record empty_context { id = i; mmode = if is_s_mode then i % 2 == 0 else true }
    ∷ contexts_from is_s_mode (suc i) n

-- Plic::Plic
unfoldable pub new_plic : ℕ → Bool → ℕ → Plic
new_plic cores is_s_mode device_num = record {
  contexts = contexts_from is_s_mode 0 (cores * (if is_s_mode then 2 else 1));
  dev_num = device_num + 1;
  priority = replicate plic_max_devices 0;
  pending = replicate len_group_by_word 0;
}

-- `1U << (i % kWordBits)` and its complement on uint32_t
abbrev pub mask_of : ℕ → ℕ
mask_of i = 2 ^ (i % word_bits)

-- `words[i / kWordBits] & mask` as a condition; an index outside the array is a fault of the callers
-- below, which test the range first.
abbrev pub has_bit : List ℕ → ℕ → Bool
has_bit words i = nonzero (bit_and (get_or words (i / word_bits) 0) (mask_of i))

abbrev pub set_bit : List ℕ → ℕ → List ℕ
set_bit words i = set words (i / word_bits) (bit_or (get_or words (i / word_bits) 0) (mask_of i))

abbrev pub clear_bit : List ℕ → ℕ → List ℕ
clear_bit words i =
    set words (i / word_bits) (bit_and (get_or words (i / word_bits) 0) (bit_not 32 (mask_of i)))

-- Plic::UpdateExt; a source beyond the pending array is a write outside it.
unfoldable pub update_ext : Plic → ℕ → Bool → Access Plic
update_ext p src_id fired =
    let cleared = clear_bit p.pending src_id in
    if ltb (src_id / word_bits) (length p.pending)
    then done (record p { pending = if fired then set_bit cleared src_id else cleared })
    else fault

-- The condition of the loop in GetInterrupt for source `i`.
unfoldable pub is_candidate : Plic → PlicContext → ℕ → Bool
is_candidate p ctx i =
    leb ctx.threshold (get_or p.priority i 0)
    && has_bit p.pending i
    && has_bit ctx.enable i
    && not (has_bit ctx.claimed i)

-- One round of the loop on (max_priority, best_interrupt).
unfoldable pub consider : Plic → PlicContext → ℕ → ℕ × ℕ → ℕ × ℕ
consider p ctx i (max_priority, best) =
    if is_candidate p ctx i && ltb max_priority (get_or p.priority i 0)
    then (get_or p.priority i 0, i)
    else (max_priority, best)

-- The loop over the sources below `n`, which runs upwards from 0.
unfoldable pub best_below : Plic → PlicContext → ℕ → ℕ × ℕ
best_below p ctx zero = (0, 0)
best_below p ctx (suc n) = consider p ctx n (best_below p ctx n)

-- Plic::GetInterrupt: whether an interrupt waits, and the context's claim register set to it. More
-- sources than the arrays hold are read outside them.
unfoldable pub get_interrupt : Plic → ℕ → Access (Bool × Plic)
get_interrupt p ctx_id = elim (get_elem? p.contexts ctx_id) [
  | none ↦ fault
  | some ctx ↦
      let best = (best_below p ctx p.dev_num).1 in
      if leb p.dev_num plic_max_devices
      then done (
        not (best == 0),
        record p { contexts = set p.contexts ctx_id (record ctx { claim = best }) },
      )
      else fault
]

-- Copying from and into an array of uint32_t at element `i`.
abbrev pub copy_out : List ℕ → ℕ → ℕ → Access (List ℕ)
copy_out words i bytes = or_fault (read_bytes (words_to_bytes 4 words) (i * 4) bytes)

abbrev pub copy_in : List ℕ → ℕ → List ℕ → ℕ → Access (List ℕ)
copy_in words i buffer bytes =
    map_access (bytes_to_words 4 (length words))
      (or_fault (write_bytes (words_to_bytes 4 words) (i * 4) buffer bytes))

-- Which register an offset selects, by the tests that Load and Store share; `nothing` is the
-- `return false` at the end or at a failed test.
pub data Target : Type 0 where
  priority_word pending_word : ℕ → Target
  enable_word : ℕ → ℕ → Target
  threshold_word claim_word : ℕ → Target
  nothing : Target

unfoldable pub target : Plic → ℕ → Target
target p addr =
    let pending_index = (addr - pending_base) / 4 in
    let enable_ctx = (addr - enable_base) / enable_bytes_per_hart in
    let enable_index = addr % enable_bytes_per_hart / 4 in
    let ctx = (addr - context_base) / context_bytes_per_hart in
    let off = addr % context_bytes_per_hart in
    if leb source_priority_base addr && ltb addr pending_base
    then (if ltb (p.dev_num - 1) (addr / 4) then nothing else priority_word (addr / 4))
    else if leb pending_base addr && ltb addr 0x1080
    then (if ltb (p.dev_num - 1) (pending_index * word_bits)
        then nothing
        else pending_word pending_index)
    else if leb enable_base addr && ltb addr 0x1f2000
    then (if leb (length p.contexts) enable_ctx || ltb (p.dev_num - 1) (enable_index * word_bits)
        then nothing
        else enable_word enable_ctx enable_index)
    else if leb context_base addr && leb addr context_end
    then (if leb (length p.contexts) ctx
        then nothing
        else if off == 0
        then threshold_word ctx
        else if off == 4
        then claim_word ctx
        else nothing)
    else nothing

-- The context at an index that `target` has tested.
abbrev pub context_at : Plic → ℕ → PlicContext
context_at p i = get_or p.contexts i empty_context

abbrev pub with_context : Plic → ℕ → PlicContext → Plic
with_context p i ctx = record p { contexts = set p.contexts i ctx }

-- Plic::Load. A load of a claim register marks the interrupt as claimed.
unfoldable pub load_target : Plic → Target → ℕ → Access (List ℕ × Plic)
load_target p (priority_word i) bytes = map_access (λ out. (out, p)) (copy_out p.priority i bytes)
load_target p (pending_word i) bytes = map_access (λ out. (out, p)) (copy_out p.pending i bytes)
load_target p (enable_word ctx i) bytes =
    map_access (λ out. (out, p)) (copy_out (context_at p ctx).enable i bytes)
load_target p (threshold_word ctx) bytes =
    map_access (λ out. (out, p)) (copy_out ((context_at p ctx).threshold ∷ []) 0 bytes)
load_target p (claim_word ctx) bytes =
    let c = context_at p ctx in
    if ltb (c.claim / word_bits) (length c.claimed)
    then map_access
        (λ out. (out, with_context p ctx (record c { claimed = set_bit c.claimed c.claim })))
        (copy_out (c.claim ∷ []) 0 bytes)
    else fault
load_target p nothing bytes = refused

unfoldable pub load : Plic → ℕ → ℕ → Access (List ℕ × Plic)
unfolding load_target target
load p addr bytes = load_target p (target p addr) bytes

-- Plic::Store. A store to a claim register completes the interrupt whose number it writes.
unfoldable pub store_target : Plic → Target → ℕ → List ℕ → Access Plic
store_target p (priority_word i) bytes buffer =
    map_access (λ ws. record p { priority = ws }) (copy_in p.priority i buffer bytes)
store_target p (pending_word i) bytes buffer =
    map_access (λ ws. record p { pending = ws }) (copy_in p.pending i buffer bytes)
store_target p (enable_word ctx i) bytes buffer =
    let c = context_at p ctx in
    map_access (λ ws. with_context p ctx (record c { enable = ws }))
      (copy_in c.enable i buffer bytes)
store_target p (threshold_word ctx) bytes buffer =
    let c = context_at p ctx in
    map_access (λ ws. with_context p ctx (record c { threshold = get_or ws 0 0 }))
      (copy_in (c.threshold ∷ []) 0 buffer bytes)
store_target p (claim_word ctx) bytes buffer =
    let c = context_at p ctx in
    let val = of_le_bytes (take 4 buffer) in
    if ltb (length buffer) 4
    then fault
    else if ltb (p.dev_num - 1) val
    then refused
    else if ltb (val / word_bits) (length c.claimed)
    then done (with_context p ctx (record c { claimed = clear_bit c.claimed val }))
    else fault
store_target p nothing bytes buffer = refused

unfoldable pub store : Plic → ℕ → ℕ → List ℕ → Access Plic
unfolding store_target target
store p addr bytes buffer = store_target p (target p addr) bytes buffer

-- Plic::Reset
unfoldable pub reset : Plic → Plic
reset p = record p {
  priority = replicate plic_max_devices 0;
  pending = replicate len_group_by_word 0;
  contexts = map (λ _. empty_context) p.contexts;
}

abbrev pub plic_device : MmioDevice Plic
plic_device = record { load = load; store = store; reset = reset }
