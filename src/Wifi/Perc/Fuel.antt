-- ===== src/Wifi/Perc/Fuel.antt =====
-- The fuel of the two loops of components/wifi.c that step through a datagram.
use slstatus.Prelude.{
  ℕ, zero, suc, ◌-◌, ◌≤◌, ◌≡◌, refl, Bool, true, false, Option, none, some, ◌==◌, ltb, arith,
  if◌then◌else◌, drop,
}
use slstatus.Prelude.Text.{Text}
use slstatus.Wifi.{nlmsg_hdrlen}
use slstatus.Wifi.Attributes.{findattr_from, findattr, read_16, read_32, align}
use slstatus.Wifi.Perc.{Walk, walk_on, walk_messages, nlmsg_done}

if_else :
    {A : Type 0} (b : Bool) (x y z : A)
    → (b ≡ false → y ≡ z)
    → (if b then x else y) ≡ (if b then x else z)
if_else true x y z h = refl
if_else false x y z h = h refl

findattr_from-same :
    (f g attr n : ℕ) (m : Text)
    → n ≤ f
    → n ≤ g
    → findattr_from f attr n m ≡ findattr_from g attr n m
unfolding findattr_from
findattr_from-same zero zero attr n m hf hg = refl
findattr_from-same zero (suc g) attr n m hf hg = ground arith
findattr_from-same (suc f) zero attr n m hf hg = ground arith
findattr_from-same (suc f) (suc g) attr n m hf hg = if_else (n == 0) _ _ _ λ positive.
    if_else (read_16 2 m == attr) _ _ _ λ other. if_else (align (read_16 0 m) == 0) _ _ _ λ step.
      findattr_from-same f g attr (n - align (read_16 0 m)) (drop (align (read_16 0 m)) m)
        (ground arith) (ground arith)

less : (n adv f : ℕ) → ltb n nlmsg_hdrlen ≡ false → (adv == 0) ≡ false → n ≤ suc f → n - adv ≤ f
less n adv f header step h = ground (arith, header, step)

walk_on-same :
    (type adv : ℕ) (now : Option Text) (k l : Text → Walk)
    → ((adv == 0) ≡ false → (t : Text) → k t ≡ l t)
    → walk_on type adv now k ≡ walk_on type adv now l
unfolding walk_on
walk_on-same type adv none k l h = refl
walk_on-same type adv (some t) k l h =
    if_else (type == nlmsg_done) _ _ _ λ more. if_else (adv == 0) _ _ _ λ step. h step t

walk_messages-same :
    (f g n : ℕ) (m strength : Text)
    → n ≤ f
    → n ≤ g
    → walk_messages f n m strength ≡ walk_messages g n m strength
unfolding walk_messages
walk_messages-same zero zero n m t hf hg = refl
walk_messages-same zero (suc g) n m t hf hg = ground arith
walk_messages-same (suc f) zero n m t hf hg = ground arith
walk_messages-same (suc f) (suc g) n m t hf hg =
    let adv = if ltb n (read_32 0 m) then n else read_32 0 m in
    if_else (ltb n nlmsg_hdrlen) _ _ _ λ header. walk_on-same (read_16 4 m) adv _ _ _ λ step t'.
      walk_messages-same f g (n - adv) (drop adv m) t' (less n adv f header step hf)
        (less n adv g header step hg)

-- As much fuel as there are bytes is enough for both loops, whatever the bytes are: findattr and the
-- walk of wifi_perc over a datagram end in the same way with more fuel.
findattr-walk_messages :
    (fuel attr n : ℕ) (m strength : Text)
    → n ≤ fuel
    → (findattr_from fuel attr n m ≡ findattr attr n m)
      × (walk_messages fuel n m strength ≡ walk_messages n n m strength)
unfolding findattr
findattr-walk_messages fuel attr n m strength h = (
  findattr_from-same fuel n attr n m h (omega arith),
  walk_messages-same fuel n n m strength h (omega arith),
)
