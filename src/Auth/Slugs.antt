-- ===== src/Auth/Slugs.antt =====
-- The slug of a new organization: `slugify` and the loop of `createOrgForUser` in
-- apps/api/src/modules/auth/auth.service.ts.
pub mod Rounds
pub mod Form
use ai_saas_multi_tenant.Base.{
  ℕ, zero, suc, ◌+◌, ◌*◌, ◌/◌, Bool, true, false, not, ◌&&◌, ◌||◌, Option, none, some, List, [],
  ◌∷◌, ◌++◌, ltb, leb, ◌==◌, if◌then◌else◌, Text, codes, take,
}
use Prim.Native.Nat.{◌%◌}
use ai_saas_multi_tenant.Model.Platform.{External}

-- `String.prototype.trim`, on the white space and line ends of ECMAScript
abbrev pub is_white : ℕ → Bool
is_white c =
    (leb 9 c && leb c 13)
    || c == 32
    || c == 160
    || c == 0x1680
    || (leb 0x2000 c && leb c 0x200a)
    || c == 0x2028
    || c == 0x2029
    || c == 0x202f
    || c == 0x205f
    || c == 0x3000
    || c == 0xfeff

module _ (drop : ℕ → Bool) where
  unfoldable pub strip_front : Text → Text
  strip_front [] = []
  strip_front (c ∷ cs) = let rest = strip_front cs in if drop c then rest else c ∷ cs

  -- A character that is to drop goes where nothing is left behind it.
  abbrev pub keep_before : ℕ → Text → Text
  keep_before c [] = if drop c then [] else c ∷ []
  keep_before c (d ∷ ds) = c ∷ d ∷ ds

  unfoldable pub strip_back : Text → Text
  strip_back [] = []
  strip_back (c ∷ cs) = keep_before c (strip_back cs)

-- `[a-z0-9]`
abbrev pub is_slug_char : ℕ → Bool
is_slug_char c = (leb 97 c && leb c 122) || (leb 48 c && leb c 57)

abbrev pub is_dash : ℕ → Bool
is_dash c = c == 45

-- `replace(/[^a-z0-9]+/g, '-')`, where the flag says that the character before was replaced
unfoldable pub dash_runs : Bool → Text → Text
dash_runs in_run [] = []
dash_runs in_run (c ∷ cs) =
    let kept = c ∷ dash_runs false cs in
    let run = dash_runs true cs in
    if is_slug_char c then kept else if in_run then run else b'-' ∷ run

unfoldable pub slugify : External → Text → Text
slugify x input = take 40 (
    strip_back is_dash (
      strip_front is_dash
        (dash_runs false (strip_back is_white (strip_front is_white (x.lower_text input))))))

-- `slugify(name) || 'org'`
abbrev pub or_org : Text → Text
or_org [] = codes "org"
or_org (c ∷ cs) = c ∷ cs

unfoldable pub base_slug : External → Text → Text
base_slug x name = or_org (slugify x name)

-- `${i}`, with as many rounds as the number is high
unfoldable pub decimal_in : ℕ → ℕ → Text
decimal_in zero n = []
decimal_in (suc fuel) n =
    let front = decimal_in fuel (n / 10) in
    if ltb n 10 then (48 + n) ∷ [] else front ++ (48 + n % 10) ∷ []

unfoldable pub decimal : ℕ → Text
decimal n = decimal_in (suc n) n

-- The slug of round `i`: the base, then `${base}-${i}`.
unfoldable pub candidate : Text → ℕ → Text
candidate base zero = base
candidate base (suc i) = base ++ b'-' ∷ decimal (suc i)

-- `for (let i = 1; taken; i++)`, from the round that is tried next
unfoldable pub free_slug : (Text → Bool) → Text → ℕ → ℕ → Option Text
free_slug taken base zero i = none
free_slug taken base (suc fuel) i =
    let next = free_slug taken base fuel (suc i) in
    if taken (candidate base i) then next else some (candidate base i)
