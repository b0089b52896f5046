-- ===== src/Platform/Start.antt =====
-- The program starts sound: the devices that `main` makes, the hart that MakeCPU makes, and what
-- LoadElf stores.
use mathlib.Core.Path.{subst}
use rv64_emulator.Common.{
  ℕ, zero, suc, sym, ◌∙◌, ◌+◌, ◌%◌, ◌^◌, ◌<◌, ◌≡◌, refl, arith, Bool, true, false, not, ltb, ◌==◌,
  if◌then◌else◌, inl, inr, Option-cases, Bool-cases,
}
use rv64_emulator.Common.{
  List, [], ◌∷◌, get_elem?, take, length, Option, none, some, AllBytes, done,
}
use rv64_emulator.Device.Mmio.{MmioDevice}
use rv64_emulator.Device.Mmio.Laws.{HoldsBytes}
use rv64_emulator.Device.Clint.{new_clint}
use rv64_emulator.Device.Clint.Bytes.{new_clint-IsWhole}
use rv64_emulator.Device.Plic.{new_plic}
use rv64_emulator.Device.Plic.Bytes.{new_plic-IsWhole}
use rv64_emulator.Device.Uart.{new_uart}
use rv64_emulator.Device.Dram.{Dram}
use rv64_emulator.Device.Dram.Bytes.{OfBytes}
use rv64_emulator.Cpu.Hart.{Cpu, AmoReservation, new_cpu, store}
use rv64_emulator.Cpu.Mmu.Sv39.{new_sv39}
use rv64_emulator.Cpu.Hart.Valid.{
  IsValid, new_cpu-IsValid, set_pc-IsValid, AccessKeeps, store-AccessKeeps,
}
use rv64_emulator.Platform.Loader.{
  Segment, Elf, loaded, exits, out_of_data, segment_byte, load_bytes, load_segment, load_segments,
  load_elf, pt_load,
}
use rv64_emulator.Platform.Devices.{make_bus, dram_base_addr}
use rv64_emulator.Device.Bus.{mount_device}
use rv64_emulator.Platform.Terminal.{Terminal}
use rv64_emulator.Platform.Main.{Machine, make_cpu}
use rv64_emulator.Platform.Held.{OnPlatform, bus_of, bus_of-OnPlatform}
use rv64_emulator.Platform.Sound.{IsSound}

-- The contents of the segments are bytes.
abbrev pub AllSegments : List Segment → Type 0
AllSegments [] = Unit {0}
AllSegments (seg ∷ segs) = AllBytes seg.contents × AllSegments segs

byte_at : (bs : List ℕ) (i : ℕ) {v : ℕ} → AllBytes bs → get_elem? bs i ≡ some v → v < 256
byte_at [] i h e = ground arith
byte_at (b ∷ bs) zero h e = ground arith
byte_at (b ∷ bs) (suc i) h e = byte_at bs i h.1 e

segment_byte-lt :
    (seg : Segment) (k : ℕ) {v : ℕ} → AllBytes seg.contents → segment_byte seg k ≡ some v → v < 256
unfolding segment_byte
segment_byte-lt seg k {v} h e =
    split
      (ltb ((seg.virtual_address + k) % 2 ^ 64) ((seg.virtual_address + seg.file_size) % 2 ^ 64)) e
  where
    split : (b : Bool) → (if b then get_elem? seg.contents k else some 0) ≡ some v → v < 256
    split true e = byte_at seg.contents k h e
    split false e = ground arith

module _ {B : Type 0} (P : B → Type 0) (m : MmioDevice B) (laws : HoldsBytes m P) where
  abbrev pub StillValid : Option (Cpu B) → Type 0
  StillValid none = Unit {0}
  StillValid (some c) = IsValid P c

  load_bytes-StillValid :
      (seg : Segment) (k n : ℕ) (c : Cpu B)
      → AllBytes seg.contents
      → IsValid P c
      → StillValid (load_bytes m seg k n c)
  unfolding load_bytes
  load_bytes-StillValid seg k zero c h v = v
  load_bytes-StillValid seg k (suc n) c h v = elim (Option-cases (segment_byte seg k)) [
    | inl e ↦ rw (load_bytes, e) tt
    | inr (x, e) ↦
        let kept : AccessKeeps P (λ u. Unit {0})
            (store m c ((seg.virtual_address + k) % 2 ^ 64) 1 (x ∷ [])) =
          store-AccessKeeps P m laws c _ 1 v (omega arith) (x ∷ [])
            (segment_byte-lt seg k h e, tt) in
        elim (Option-cases (store m c ((seg.virtual_address + k) % 2 ^ 64) 1 (x ∷ []))) [
          | inl f ↦ rw (load_bytes, e, f) tt
          | inr ((r, c1), f) ↦
              rw (load_bytes, e, f)
                (load_bytes-StillValid seg (suc k) n c1 h
                  (subst (AccessKeeps P (λ u. Unit {0})) f kept).1)
        ]
  ]

  load_segment-StillValid :
      (seg : Segment) (c : Cpu B)
      → AllBytes seg.contents
      → IsValid P c
      → StillValid (load_segment m seg c)
  unfolding load_segment
  load_segment-StillValid seg c h v =
      split (not (seg.type == pt_load))
        (ltb seg.virtual_address ((seg.virtual_address + seg.memory_size) % 2 ^ 64))
    where
      split :
          (a b : Bool)
          → StillValid
              (if a then some c else if b then load_bytes m seg 0 seg.memory_size c else some c)
      split true b = v
      split false true = load_bytes-StillValid seg 0 seg.memory_size c h v
      split false false = v

  load_segments-StillValid :
      (segs : List Segment) (c : Cpu B)
      → AllSegments segs
      → IsValid P c
      → StillValid (load_segments m segs c)
  unfolding load_segments
  load_segments-StillValid [] c h v = v
  load_segments-StillValid (seg ∷ segs) c h v = elim (Option-cases (load_segment m seg c)) [
    | inl e ↦ rw (load_segments, e) tt
    | inr (c1, e) ↦
        rw (load_segments, e)
          (load_segments-StillValid segs c1 h.1
            (subst StillValid e (load_segment-StillValid seg c h.0 v)))
  ]

AllSegments-take : (n : ℕ) (segs : List Segment) → AllSegments segs → AllSegments (take n segs)
AllSegments-take zero segs h = tt
AllSegments-take (suc n) [] h = tt
AllSegments-take (suc n) (seg ∷ segs) h = (h.0, AllSegments-take n segs h.1)

-- LoadElf of a file whose segments hold bytes leaves a valid hart.
pub load_elf-IsValid :
    {B : Type 0} (P : B → Type 0) (m : MmioDevice B) (reader : Elf) (c c1 : Cpu B)
    → HoldsBytes m P
    → AllSegments reader.segments
    → IsValid P c
    → load_elf m reader c ≡ loaded c1
    → IsValid P c1
unfolding load_elf
load_elf-IsValid P m reader c c1 laws h v e =
    let segs : List Segment = take (length reader.segments % 2 ^ 16) reader.segments in
    let kept : StillValid P m laws (load_segments m segs c) =
      load_segments-StillValid P m laws segs c (AllSegments-take _ reader.segments h) v in
    elim (Bool-cases reader.valid) [
      | inl ok ↦ elim (Option-cases (load_segments m segs c)) [
        | inl f ↦ let bad : load_elf m reader c ≡ out_of_data = rw (load_elf, ok, f) refl in cc
        | inr (c2, f) ↦
            let good : load_elf m reader c ≡ loaded c2 = rw (load_elf, ok, f) refl in
            subst (IsValid P) (loaded_injective (sym good ∙ e)) (subst (StillValid P m laws) f kept)
      ]
      | inr bad_file ↦ let bad : load_elf m reader c ≡ exits = rw (load_elf, bad_file) refl in cc
    ]
  where
    loaded_injective : {A : Type 0} {a b : A} → loaded a ≡ loaded b → a ≡ b
    loaded_injective e = cc

-- The machine before its first round.
abbrev pub start : ℕ → AmoReservation → Dram → Terminal → Machine
start now reservation dram terminal = record {
  cpu = make_cpu reservation (bus_of (new_clint now 1) (new_plic 1 true 2) new_uart dram);
  terminal = terminal;
  send_ctrl_c = false;
}

-- The bus of that machine is the one that `main` mounts, and it is sound if the memory holds bytes.
pub start-IsSound :
    (now : ℕ) (reservation : AmoReservation) (dram : Dram) (terminal : Terminal)
    → OfBytes dram
    → (make_bus (new_clint now 1) (new_plic 1 true 2) new_uart dram
        ≡ done (start now reservation dram terminal).cpu.mmu.bus)
      × IsSound (start now reservation dram terminal)
unfolding make_bus mount_device make_cpu new_cpu new_sv39
start-IsSound now reservation dram terminal h = (
  refl,
  record {
    hart =
        set_pc-IsValid OnPlatform _ dram_base_addr
          (new_cpu-IsValid OnPlatform 0 reservation _ (omega arith) (
            bus_of-OnPlatform _ _ _ _ (new_clint-IsWhole now 1) (new_plic-IsWhole 2 (omega arith))
              h))
          (omega arith);
    zero_register = refl;
  },
)
