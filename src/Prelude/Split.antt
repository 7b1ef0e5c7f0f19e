-- ===== src/Prelude/Split.antt =====
-- strings.Split by a separator of one byte, with its inverse `join_with`.
use Prim.Native.Nat.{ℕ}
use mathlib.Core.Path.{◌≡◌, refl}
use mathlib.Core.Logic.{◌≢◌}
use mathlib.Core.List.{List, [], ◌∷◌, ◌++◌}
use native.Mathlib.Omega.{arith}
use project1_iot_server.Prelude.Tests.{◌==◌, if◌then◌else◌}
use project1_iot_server.Prelude.Lists.{All}
use project1_iot_server.Prelude.Text.{Bytes}

-- Puts a byte at the front of the first segment.
abbrev push : ℕ → List Bytes → List Bytes
push c [] = (c ∷ []) ∷ []
push c (s ∷ ss) = (c ∷ s) ∷ ss

unfoldable pub split_on : ℕ → Bytes → List Bytes
split_on sep [] = [] ∷ []
split_on sep (c ∷ cs) = let rest = split_on sep cs in if c == sep then [] ∷ rest else push c rest

abbrev pub join_with : ℕ → List Bytes → Bytes
join_with sep [] = []
join_with sep (s ∷ []) = s
join_with sep (s ∷ t ∷ ss) = s ++ (sep ∷ join_with sep (t ∷ ss))

join_with-push : (sep c : ℕ) (ss : List Bytes) → join_with sep (push c ss) ≡ c ∷ join_with sep ss
join_with-push sep c [] = refl
join_with-push sep c (s ∷ []) = refl
join_with-push sep c (s ∷ t ∷ ss) = refl

join_with-nil :
    (sep : ℕ) (ss : List Bytes) → ss ≢ [] → join_with sep ([] ∷ ss) ≡ sep ∷ join_with sep ss
join_with-nil sep [] h = absurd (h refl)
join_with-nil sep (s ∷ ss) h = refl

split_on-ne-nil : (sep : ℕ) (s : Bytes) → split_on sep s ≢ []
unfolding split_on
split_on-ne-nil sep [] h = cc
split_on-ne-nil sep (c ∷ cs) h = ground arith

-- Joining the segments of a string gives the string back.
pub join_with-split_on : (sep : ℕ) (s : Bytes) → join_with sep (split_on sep s) ≡ s
unfolding split_on
join_with-split_on sep [] = refl
join_with-split_on sep (c ∷ cs) = ground (
  arith,
  join_with-split_on sep cs,
  join_with-push sep c (split_on sep cs),
  join_with-nil sep (split_on sep cs) (split_on-ne-nil sep cs),
)

abbrev pub Lacks : ℕ → Bytes → Type 0
Lacks sep s = All (λ c. c ≢ sep) s

pub split_on_single : (sep : ℕ) (s : Bytes) → Lacks sep s → split_on sep s ≡ s ∷ []
unfolding split_on
split_on_single sep [] h = refl
split_on_single sep (c ∷ cs) h = ground (arith, split_on_single sep cs h.1, h.0)

-- The first segment ends at the first separator.
pub split_on-append :
    (sep : ℕ) (s t : Bytes) → Lacks sep s → split_on sep (s ++ (sep ∷ t)) ≡ s ∷ split_on sep t
unfolding split_on
split_on-append sep [] t h = ground arith
split_on-append sep (c ∷ cs) t h = ground (arith, split_on-append sep cs t h.1, h.0)
