-- ===== src/Pool/Registry.antt =====
-- What the lookups of the components promise: a registry from names to entries, without queue and
-- addresses, and the interface by which a component's lookup meets it.
use slstatus.Prelude.{ℕ, ◌≡◌, refl, ap, ◌∙◌, Option, none, some, if◌then◌else◌, ◌==◌, arith}
use slstatus.Prelude.Text.{Text, text_eq}
use slstatus.Pool.{TailQueue, Pool, find_by, insert}
use slstatus.Pool.Find.{IsLinked, find_by_sound}
use slstatus.Pool.Seen.{behind, seen, first_or, behind-find_by, seen-insert}

module _ {E : Type 0} (name_of : E → Text) where
  abbrev pub Registry : Type 0
  Registry = Text → Option E

  abbrev pub put : E → Registry → Registry
  put e r name = first_or (r name) (if text_eq (name_of e) name then some e else none)

  abbrev pub create : Option E → Registry → Option E × Registry
  create none r = (none, r)
  create (some e) r = (some e, put e r)

  abbrev pub get_or_create : Option E → Option E → Registry → Option E × Registry
  get_or_create new (some e) r = (some e, r)
  get_or_create new none r = create new r

  -- The entry of a name, or the new one if there is none.
  abbrev pub get : Text → (new : Option E) → Registry → Option E × Registry
  get name new r = get_or_create new (r name) r

  module _ (T : TailQueue) where
    abbrev pub registry : Pool T E → Registry
    registry s name = seen T (λ e. text_eq (name_of e) name) s

    -- The entry behind the pointer that is returned, and the registry.
    abbrev pub shown : Option ℕ × Pool T E → Option E × Registry
    shown (p, s) = (behind s.cells p, registry s)

    abbrev pub added : Option E → Pool T E → Option ℕ × Pool T E
    added none s = (none, s)
    added (some e) s = (some s.fresh, insert T e s)

    -- A lookup of a name: what it makes of the pool where the name is there, and where it is not.
    pub record Finds (name : Text) (new : Option E) (s : Pool T E) (r : Option ℕ × Pool T E)
        : Type 0 where
      pub found : (p : ℕ) → find_by T (λ e. text_eq (name_of e) name) s ≡ some p → r ≡ (some p, s)
      pub missing : find_by T (λ e. text_eq (name_of e) name) s ≡ none → r ≡ added new s

    new_cell :
        (cells : ℕ → Option E) (n : ℕ) (e : E) → (if n == n then some e else cells n) ≡ some e
    new_cell cells n e = ground arith

    added-shown :
        (new : Option E) (s : Pool T E)
        → IsLinked T s
        → shown (added new s) ≡ create new (registry s)
    unfolding insert
    added-shown none s h = refl
    added-shown (some e) s h = λ i. (
      new_cell s.cells s.fresh e i,
      λ name. seen-insert T (λ x. text_eq (name_of x) name) e s h i,
    )

    present :
        (new o : Option E) (e : E) (r : Registry) → o ≡ some e → (o, r) ≡ get_or_create new o r
    present new none e r c = cc
    present new (some e') e r c = refl

    at :
        (name : Text) (new : Option E) (s : Pool T E) (o : Option ℕ)
        → IsLinked T s
        → find_by T (λ e. text_eq (name_of e) name) s ≡ o
        → (r : Option ℕ × Pool T E) → Finds name new s r
        → shown r ≡ get_or_create new (behind s.cells o) (registry s)
    at name new s none h f r law = ap shown (law.missing f) ∙ added-shown new s h
    at name new s (some p) h f r law =
        let (e, c, _) = find_by_sound T (λ e. text_eq (name_of e) name) s p f in
        ap shown (law.found p f) ∙ present new (s.cells p) e (registry s) c

    -- A lookup with the laws of the interface is the lookup of the registry.
    pub Finds-registry :
        (name : Text) (new : Option E) (s : Pool T E) (r : Option ℕ × Pool T E)
        → IsLinked T s
        → Finds name new s r
        → shown r ≡ get name new (registry s)
    Finds-registry name new s r h law =
        at name new s (find_by T (λ e. text_eq (name_of e) name) s) h refl r law
        ∙ ap (λ o. get_or_create new o (registry s))
            (behind-find_by T (λ e. text_eq (name_of e) name) s)
