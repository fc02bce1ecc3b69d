-- ===== src/Pool/Links.antt =====
-- What keeps every pointer of a queue pointing to an entry.
use slstatus.Prelude.{
  ℕ, ◌≡◌, refl, Bool, true, false, List, [], ◌∷◌, Option, none, some, ◌==◌, if◌then◌else◌, All,
  is_some,
}
use slstatus.Pool.{TailQueue, Pool, modify}
use slstatus.Pool.Find.{IsLinkedAt, IsLinked}

-- A property of both branches.
pub on_both :
    {A : Type 0} (P : A → Type 0) (b : Bool) {x y : A} → P x → P y → P (if b then x else y)
on_both P true hx hy = hx
on_both P false hx hy = hy

-- A property of both cases.
pub on_cell :
    {E A : Type 0} (P : A → Type 0) (o : Option E) {x : A} {f : E → A}
    → P x
    → ((e : E) → P (f e))
    → P (elim o [ none ↦ x | some e ↦ f e ])
on_cell P none hx hf = hx
on_cell P (some e) hx hf = hf e

IsLinkedAt-modify :
    {E : Type 0} (p : ℕ) (e : E) (cells : ℕ → Option E) (n : ℕ) (ps : List ℕ)
    → All (IsLinkedAt cells n) ps
    → All (IsLinkedAt (λ q. if q == p then some e else cells q) n) ps
IsLinkedAt-modify p e cells n [] h = tt
IsLinkedAt-modify p e cells n (q ∷ ps) h = (
  (h.0.0, on_both (λ o. is_some o ≡ true) (q == p) refl h.0.1),
  IsLinkedAt-modify p e cells n ps h.1,
)

pub IsLinked-modify :
    (T : TailQueue) {E : Type 0} (p : ℕ) (e : E) (s : Pool T E)
    → IsLinked T s
    → IsLinked T (modify T p e s)
unfolding modify
IsLinked-modify T p e s h = record { all = IsLinkedAt-modify p e s.cells s.fresh _ h.all }
