-- ===== src/Server/Throttle/Examples.antt =====
-- Three logins to one account within a second.
use Prim.Native.String.{String}
use gatemux.Common.{ℕ, ◌+◌, ◌≤◌, ◌≡◌, refl, List, [], ◌∷◌, arith}
use gatemux.Common.Maps.{find}
use gatemux.Server.Throttle.{Throttle, attempts_of, start_of}
use gatemux.Server.Throttle.Window.{Login, InWindow, tried_in, let_through, let_through-le-cap}

-- A short digest that tells the two kinds apart.
abbrev digest : String → String → String → String
digest kind endpoint value = kind

abbrev login : ℕ → Login
login now = record { now = now; attempts = attempts_of digest "login" "10.0.0.1" "a@b.c" }

abbrev three : List Login
three = login 900000000001 ∷ login 900000000002 ∷ login 900000000003 ∷ []

abbrev unused : Throttle
unused = record { counts = []; bucket = 0 }

in_window : (now : ℕ) → start_of now ≡ 900000000000 → InWindow 900000000000 "account" 5 (login now)
unfolding attempts_of
in_window now h = record { window = h; capped = (refl, (refl, tt)); once = omega arith }

let_through-le-cap_example :
    tried_in 900000000000 "account" unused + let_through "account" three unused ≤ 5
unfolding find
let_through-le-cap_example =
    let_through-le-cap 900000000000 "account" 5 three unused
      (
        in_window 900000000001 refl,
        (in_window 900000000002 refl, (in_window 900000000003 refl, tt)),
      )
      (omega arith)
