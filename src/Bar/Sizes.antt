-- ===== src/Bar/Sizes.antt =====
-- The sizes of the texts of slstatus.c: CMDLEN for a status, MAXLEN for the joined status.
use slstatus.Prelude.{
  ℕ, suc, ◌*◌, ◌≤◌, ◌<◌, ◌≡◌, refl, ◌≢◌, ap, List, [], ◌∷◌, arith, Bool-cases, inl, inr, length,
  concat, length-concat, All,
}
use slstatus.Prelude.Text.{Text}
use slstatus.Util.Bounds.{length-esnprintf}
use slstatus.Bar.{Arg, Bar, cmdlen, due, call, refresh, update}

-- A status with its NUL fits its row.
abbrev pub Fits : Text → Type 0
Fits s = length s ≤ 127

-- As many statuses as entries, each of which fits.
abbrev pub AreSized : {S : Type 0} → List (Arg S) → List Text → Type 0
AreSized args ts = (length ts ≡ length args) × All Fits ts

module _ {S : Type 0} where
  Fits-refresh : (a : Arg S) (b : Bar S) → Fits (refresh a b).0
  unfolding refresh
  Fits-refresh a b =
      let (res, b') = call a b in omega (arith, length-esnprintf 128 a.fmt _ b'.world (omega arith))

  pub AreSized-update :
      (iter : ℕ) (args : List (Arg S)) (ts : List Text) (b : Bar S)
      → AreSized args ts
      → AreSized args (update iter args ts b).0
  unfolding update
  AreSized-update iter [] ts b h = h
  AreSized-update iter (a ∷ entries) [] b h = absurd (omega arith)
  AreSized-update iter (a ∷ entries) (t ∷ ts) b h = elim (Bool-cases (due iter b.upsigno a)) [
    | inl is_due ↦ elim (Bool-cases (refresh a b).1) [
      | inl more ↦
          let (n, all) = AreSized-update iter entries ts (refresh a b).2 (omega arith, h.1.1) in
          rw (is_due, more, update) (ap suc n, (Fits-refresh a b, all))
      | inr stop ↦ rw (is_due, stop, update) (h.0, (Fits-refresh a b, h.1.1))
    ]
    | inr not_due ↦
        let (n, all) = AreSized-update iter entries ts b (omega arith, h.1.1) in
        rw (not_due, update) (ap suc n, (h.1.0, all))
  ]

  -- The joined statuses and the final NUL fit the MAXLEN = CMDLEN * LEN(args) bytes of `status`.
  pub length-concat-lt :
      (args : List (Arg S)) (ts : List Text)
      → args ≢ []
      → AreSized args ts
      → length (concat ts) < cmdlen * length args
  length-concat-lt [] ts ne h = absurd (ne refl)
  length-concat-lt (a ∷ entries) ts ne h = omega (arith, length-concat {0} 127 ts h.1)
