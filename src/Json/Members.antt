-- ===== src/Json/Members.antt =====
-- Facts on the members of an object that `decode_object` accepts.
use project1_iot_server.Json.{
  Event, Fields, close, key, value, open_brace, mem, names, read_members, check_members,
  decode_object,
}
use project1_iot_server.Prelude.{
  suc, ◌≤◌, ◌≡◌, refl, ap, inl, inr, true, false, Option, none, some, List, [], ◌∷◌, arith,
  if◌then◌else◌, Bool-cases, length, Bytes, bytes_eq_refl, bytes_eq→eq, bytes_eq,
}

abbrev pub Distinct : List Bytes → Type 0
Distinct [] = Unit
Distinct (n ∷ ns) = (mem n ns ≡ false) × Distinct ns

abbrev pub Among : List Bytes → List Bytes → Type 0
Among known [] = Unit
Among known (n ∷ ns) = (mem n known ≡ true) × Among known ns

read_members_sound :
    (known : List Bytes) (es : List Event) (fs gs : Fields) (rest : List Event)
    → Distinct (names fs)
    → Among known (names fs)
    → read_members known es fs ≡ some (gs, rest)
    → Distinct (names gs) × Among known (names gs)
unfolding read_members
read_members_sound known (close ∷ r) fs gs rest d a h = ground arith
read_members_sound known (key n ∷ value raw ∷ r) fs gs rest d a h =
    elim (Bool-cases (mem n known)) [
      | inr unknown ↦ absurd (ground arith)
      | inl is_known ↦ elim (Bool-cases (mem n (names fs))) [
        | inl repeated ↦ absurd (ground arith)
        | inr fresh ↦
            read_members_sound known r ((n, raw) ∷ fs) gs rest (fresh, d) (is_known, a)
              (ground arith)
      ]
    ]
read_members_sound known _ fs gs rest d a h = cc

check_members_sound :
    (known : List Bytes) (r : Option (Fields × List Event)) (gs : Fields)
    → check_members known r ≡ some gs
    → (r ≡ some (gs, [])) × (length gs ≡ length known)
unfolding check_members
check_members_sound known none gs h = cc
check_members_sound known (some (fs, [])) gs h = ground arith
check_members_sound known (some (fs, e ∷ rest)) gs h = cc

bytes_eq_sym : (s t : Bytes) → bytes_eq s t ≡ false → bytes_eq t s ≡ false
bytes_eq_sym s t h = elim (Bool-cases (bytes_eq t s)) [
  | inl e ↦ absurd (cc (bytes_eq→eq t s e, bytes_eq_refl s, h))
  | inr e ↦ e
]

abbrev remove : Bytes → List Bytes → List Bytes
remove n [] = []
remove n (k ∷ ks) = if bytes_eq n k then ks else k ∷ remove n ks

length-remove :
    (n : Bytes) (ks : List Bytes) → mem n ks ≡ true → length ks ≡ suc (length (remove n ks))
length-remove n [] h = cc
length-remove n (k ∷ ks) h = ground (arith, length-remove n ks)

mem-remove :
    (m n : Bytes) (ks : List Bytes)
    → bytes_eq m n ≡ false
    → mem m ks ≡ true
    → mem m (remove n ks) ≡ true
mem-remove m n [] e h = cc
mem-remove m n (k ∷ ks) e h = ground (arith, mem-remove m n ks, bytes_eq→eq n k)

Among-remove :
    (n : Bytes) (known ns : List Bytes)
    → mem n ns ≡ false
    → Among known ns
    → Among (remove n known) ns
Among-remove n known [] e a = tt
Among-remove n known (m ∷ ns) e a = (
  mem-remove m n known (bytes_eq_sym n m (ground arith)) a.0,
  Among-remove n known ns (ground arith) a.1,
)

-- As many distinct names as are known are all of them.
mem_of_length :
    (known ns : List Bytes) (k : Bytes)
    → Distinct ns
    → Among known ns
    → length known ≤ length ns
    → mem k known ≡ true
    → mem k ns ≡ true
mem_of_length [] [] k d a l h = cc
mem_of_length (j ∷ ks) [] k d a l h = absurd (omega arith)
mem_of_length known (n ∷ ns) k d a l h = elim (Bool-cases (bytes_eq k n)) [
  | inl e ↦ rw e
  | inr e ↦ rw e (
      mem_of_length (remove n known) ns k d.1 (Among-remove n known ns d.0 a.1)
        (omega (arith, length-remove n known a.0)) (mem-remove k n known e h))
]

length-names : (fs : Fields) → length (names fs) ≡ length fs
length-names [] = refl
length-names (f ∷ fs) = ap suc (length-names fs)

-- A member list that decodeBatchObject or decodeACKObject accepts has every name of the known set,
-- no name twice, and none outside the set.
pub decode_object_exact :
    (known : List Bytes) (es : List Event) (fs : Fields)
    → decode_object known es ≡ some fs
    → ((k : Bytes) → mem k known ≡ true → mem k (names fs) ≡ true)
      × Distinct (names fs)
      × Among known (names fs)
unfolding decode_object
decode_object_exact known (open_brace ∷ rest) fs h =
    let (e, n) = check_members_sound known (read_members known rest []) fs h in
    let (d, a) = read_members_sound known rest [] fs [] tt tt e in
    (λ k m. mem_of_length known (names fs) k d a (omega (arith, length-names fs)) m, d, a)
decode_object_exact known _ fs h = cc
