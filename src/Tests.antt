-- ===== src/Tests.antt =====
-- Concrete inputs for the theorems: the parameters in this file, the runs in its children.
mod BarRuns
mod Callbacks
mod Connections
mod Devices
mod Signals
mod Sinks
mod Systems
mod Texts
mod Threads
mod Whole
use slstatus.Prelude.{
  ℕ, zero, suc, ◌+◌, ◌-◌, ◌*◌, ◌/◌, ◌≤◌, ◌<◌, ◌≡◌, refl, Bool, true, false, List, [], ◌∷◌, ◌++◌,
  Option, none, some, arith, ltb, leb, ◌==◌, if◌then◌else◌, ap, ◌∙◌,
}
use slstatus.Prelude.Int.{ℤ, pos, pos_part}
use slstatus.Prelude.Text.{Text}
use slstatus.Stdio.Decimal.{show_nat}
use slstatus.Util.{World}
use slstatus.Util.Float.{Float, IsExact}
use slstatus.Pool.{TailQueue}
use native.Mathlib.Nat.{div-le_of_le-mul, mul_comm}

swap : (a b : ℕ) → a ≡ b → (x : ℕ) → leb x a ≡ true → x ≤ b
swap a b e x h = ground arith

pub leb-div : (x k b : ℕ) → 0 < b → leb x (k * b) ≡ true → leb (x / b) k ≡ true
leb-div x k b p h =
    let small : x / b ≤ k = div-le_of_le-mul b (swap (k * b) (b * k) (mul_comm k b) x h) in
    ground arith

-- Numbers without fractions have the laws of the interface.
abbrev pub whole_numbers : Float
whole_numbers = record {
  Double = ℕ;
  of_ℕ = λ n. n;
  of_ℤ = pos_part;
  add = λ a b. a + b;
  sub = λ a b. a - b;
  mul = λ a b. a * b;
  div = λ a b. a / b;
  le = leb;
  lt = ltb;
  eq = λ a b. a == b;
  single = λ n. n;
  trunc = pos;
  to_uintmax = λ n. n;
  show = λ n k. show_nat n;
  of_ℕ-le = λ n k e h. ground arith;
  div-le = λ x k b p ek eb ekb h. leb-div x k b p h;
  le_false_of_lt = λ x k b ek eb h l. ground arith;
  lt-trunc = λ x n p e. ground arith;
}

abbrev pub removed : ℕ → List ℕ → List ℕ
removed p [] = []
removed p (q ∷ qs) = if q == p then qs else q ∷ removed p qs

abbrev pub head_of : List ℕ → Option ℕ
head_of [] = none
head_of (p ∷ ps) = some p

pub head_nil : (q : List ℕ) → q ≡ [] → head_of q ≡ none
head_nil [] h = refl
head_nil (p ∷ q) h = cc

pub removed-head : (q : List ℕ) (p : ℕ) (ps : List ℕ) → q ≡ p ∷ ps → removed p q ≡ ps
removed-head q p ps h = ap (removed p) h ∙ ground arith

abbrev pub list_queue : TailQueue
list_queue = record {
  Queue = List ℕ;
  init = [];
  insert_tail = λ q p. q ++ p ∷ [];
  first = head_of;
  remove = λ q p. removed p q;
  entries = λ q. q;
  entries-init = refl;
  entries-insert_tail = λ q p. refl;
  first-nil = head_nil;
  first-cons = λ q p ps h. ap head_of h;
  entries-remove = removed-head;
}

abbrev pub quiet_world : World
quiet_world = record { buf = []; err = []; files = λ path. none; raised = [] }
