-- ===== src/Platform/Output.antt =====
-- What the terminal shows of the characters that the guest sends.
use rv64_emulator.Common.{ℕ, zero, suc, ◌≤◌, ◌≡◌, refl, sym, ap, ◌∙◌, arith, inl, inr}
use rv64_emulator.Common.{Bool, true, false, Bool-cases, ◌&&◌, not, ◌==◌, if◌then◌else◌}
use mathlib.Core.List.{append-nil, append_assoc}
use rv64_emulator.Common.{List, [], ◌∷◌, ◌++◌, length}
use rv64_emulator.Device.Uart.{Uart, getc, tx_buffer_not_empty}
use rv64_emulator.Platform.Terminal.{Terminal, show, drain, carriage_return, line_feed}

-- The characters but for carriage returns, which only move the cursor.
abbrev pub text : List ℕ → List ℕ
text [] = []
text (c ∷ cs) = if c == carriage_return then text cs else c ∷ text cs

text-append : (xs ys : List ℕ) → text (xs ++ ys) ≡ text xs ++ text ys
text-append [] ys = refl
text-append (c ∷ xs) ys = elim (Bool-cases (c == carriage_return)) [
  | inl e ↦ rw e (text-append xs ys)
  | inr e ↦ rw e (ap (λ l. c ∷ l) (text-append xs ys))
]

shown_char :
    (c : ℕ) (b : Bool)
    → (c == carriage_return) ≡ false
    → text ((if b then carriage_return ∷ [] else []) ++ (c ∷ [])) ≡ c ∷ []
shown_char c true e = rw e refl
shown_char c false e = rw e refl

text-show : (t : Terminal) (c : ℕ) → text (show t c).printed ≡ text t.printed ++ text (c ∷ [])
unfolding show
text-show t c = elim (Bool-cases (c == carriage_return)) [
  | inl e ↦ rw e (sym (append-nil (text t.printed)))
  | inr e ↦ rw e (
      text-append t.printed _
      ∙ ap (λ l. text t.printed ++ l) (shown_char c (t.delay_cr && not (c == line_feed)) e))
]

-- All that was to send is shown in its order, nothing is left, and nothing else of the port moves.
pub record Drained (u : Uart) (t : Terminal) (u' : Uart) (t' : Terminal) : Type 0 where
  pub sent : u'.tx_buffer ≡ []
  pub kept : (u'.rx_buffer ≡ u.rx_buffer) × (u'.reg ≡ u.reg)
  pub shown : text t'.printed ≡ text t.printed ++ text u.tx_buffer

stopped : (u : Uart) (t : Terminal) → u.tx_buffer ≡ [] → Drained u t u t
stopped u t e = record {
  sent = e;
  kept = (refl, refl);
  shown = sym (ap (λ q. text t.printed ++ text q) e ∙ append-nil (text t.printed));
}

got :
    (u : Uart) (c : ℕ) (q : List ℕ)
    → u.tx_buffer ≡ c ∷ q
    → ((getc u).0 ≡ c)
      × ((getc u).1.tx_buffer ≡ q)
      × ((getc u).1.rx_buffer ≡ u.rx_buffer)
      × ((getc u).1.reg ≡ u.reg)
unfolding getc
got u c q e = ground arith

-- A round of the loop, then the rest.
one_more :
    (u : Uart) (t : Terminal) (c : ℕ) (q : List ℕ) (u' : Uart) (t' : Terminal)
    → u.tx_buffer ≡ c ∷ q
    → Drained (getc u).1 (show t (getc u).0) u' t'
    → Drained u t u' t'
one_more u t c q u' t' e r =
    let (is_c, is_q, same_rx, same_reg) = got u c q e in
    record {
      sent = r.sent;
      kept = (r.kept.0 ∙ same_rx, r.kept.1 ∙ same_reg);
      shown =
          r.shown
          ∙ (rw (is_c, is_q, e)
              (ap (λ l. l ++ text q) (text-show t c)
                ∙ (append_assoc (text t.printed) (text (c ∷ [])) (text q)
                    ∙ ap (λ l. text t.printed ++ l) (sym (text-append (c ∷ []) q)))));
    }

drain_queue :
    (fuel : ℕ) (q : List ℕ) (u : Uart) (t : Terminal)
    → u.tx_buffer ≡ q
    → length q ≤ fuel
    → Drained u t (drain fuel u t).0 (drain fuel u t).1
unfolding drain tx_buffer_not_empty
drain_queue zero [] u t e h = stopped u t e
drain_queue zero (c ∷ q) u t e h = absurd (omega arith)
drain_queue (suc fuel) [] u t e h =
    let empty : tx_buffer_not_empty u ≡ false = ground arith in rw empty (stopped u t e)
drain_queue (suc fuel) (c ∷ q) u t e h =
    let full : tx_buffer_not_empty u ≡ true = ground arith in
    let (is_c, is_q, same_rx, same_reg) = got u c q e in
    rw full (
      one_more u t c q _ _ e (drain_queue fuel q (getc u).1 (show t (getc u).0) is_q (omega arith)))

pub drain-Drained :
    (fuel : ℕ) (u : Uart) (t : Terminal)
    → length u.tx_buffer ≤ fuel
    → Drained u t (drain fuel u t).0 (drain fuel u t).1
drain-Drained fuel u t h = drain_queue fuel u.tx_buffer u t refl h
