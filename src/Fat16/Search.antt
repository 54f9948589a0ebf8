-- ===== src/Fat16/Search.antt =====
-- The searches of kernel/src/fat16.c in a directory: find_entry_in_dir, the search of
-- fat16_write_file, and the path walks above them.
use native.Mathlib.Decide.{dec_lt}
use mathlib.Core.Option.{map}
use reborn_os.Prelude.{
  ℕ, zero, suc, ◌+◌, ◌≤◌, ◌<◌, ◌≡◌, refl, ap, Bool, true, ◌&&◌, ◌||◌, List, ◌∷◌, length,
  if◌then◌else◌, not, arith, Bool-cases, inl, inr, Option, none, some, ok,
}
use reborn_os.Fat16.Name.{Buf, names_match}
use reborn_os.Fat16.Volume.{Volume}
use reborn_os.Fat16.Dir.{
  Entry, entry_at, is_end, is_deleted, is_special, find_loop, find_entry_in_dir, read_directory,
  slash, component, directory_loop, resolve_directory,
}
use reborn_os.Fat16.File.{slot_loop, or_else}

-- The loop looks at entry `d`, goes on, and does not match it.
abbrev pub passed_over : Entry → Buf → Bool
passed_over d want =
    not (is_end d) && ((is_deleted d || is_special d) || not (names_match 11 0 d.name want))

abbrev pub matches : Entry → Buf → Bool
matches d want =
    (not (is_end d) && not (is_deleted d || is_special d)) && names_match 11 0 d.name want

-- What a search of the `n` entries from `e` on finds: the first match before the end mark, or none.
pub data Search (buf want : Buf) (e n : ℕ) : Option Entry → Type 0 where
  hit :
      (i : ℕ)
      → (e ≤ i) × (i < e + n)
      → matches (entry_at buf i) want ≡ true
      → ((j : ℕ) → e ≤ j → j < i → passed_over (entry_at buf j) want ≡ true)
      → Search buf want e n (some (entry_at buf i))
  ended :
      (i : ℕ)
      → (e ≤ i) × (i < e + n)
      → is_end (entry_at buf i) ≡ true
      → ((j : ℕ) → e ≤ j → j < i → passed_over (entry_at buf j) want ≡ true)
      → Search buf want e n none
  missed :
      ((j : ℕ) → e ≤ j → j < e + n → passed_over (entry_at buf j) want ≡ true)
      → Search buf want e n none

before :
    (buf want : Buf) (e : ℕ) {i : ℕ}
    → passed_over (entry_at buf e) want ≡ true
    → ((j : ℕ) → e + 1 ≤ j → j < i → passed_over (entry_at buf j) want ≡ true)
    → (j : ℕ) → e ≤ j
    → j < i
    → passed_over (entry_at buf j) want ≡ true
before buf want e p f j a b = elim (dec_lt e j) [
  | yes q ↦ f j (omega arith) b
  | no q ↦ (let z : j ≡ e = omega arith in rw z p)
]

further :
    (buf want : Buf) (e n : ℕ) {r : Option Entry}
    → passed_over (entry_at buf e) want ≡ true
    → Search buf want (e + 1) n r
    → Search buf want e (suc n) r
further buf want e n p (hit i (a, b) m f) =
    hit i (omega arith, omega arith) m (before buf want e p f)
further buf want e n p (ended i (a, b) m f) =
    ended i (omega arith, omega arith) m (before buf want e p f)
further buf want e n p (missed f) = missed (before buf want e p (λ j a b. f j a (omega arith)))

find_loop-Search : (n e : ℕ) (buf want : Buf) → Search buf want e n (find_loop n e buf want)
unfolding find_loop
find_loop-Search zero e buf want = missed λ j a b. absurd (omega arith)
find_loop-Search (suc n) e buf want =
    let rest = find_loop-Search n (e + 1) buf want in
    let here : e < e + suc n = omega arith in
    let none_before : (j : ℕ) → e ≤ j → j < e → passed_over (entry_at buf j) want ≡ true =
      λ j a b. absurd (omega arith) in
    elim (Bool-cases (is_end (entry_at buf e))) [
      | inl x ↦ rw x (ended e (omega arith, here) x none_before)
      | inr x ↦ elim (Bool-cases (is_deleted (entry_at buf e) || is_special (entry_at buf e))) [
        | inl y ↦ rw (x, y) (further buf want e n (rw (x, y) refl) rest)
        | inr y ↦ elim (Bool-cases (names_match 11 0 (entry_at buf e).name want)) [
          | inl z ↦ rw (x, y, z) (hit e (omega arith, here) (rw (x, y, z) refl) none_before)
          | inr z ↦ rw (x, y, z) (further buf want e n (rw (x, y, z) refl) rest)
        ]
      ]
    ]

-- find_entry_in_dir gives the first entry of a directory, before the end mark, that is in use, is
-- no long-name fragment or volume label, and has the wanted name; it fails only if there is none.
pub find_entry_in_dir-Search :
    (v : Volume) (dir : ℕ) (want buf : Buf) (count : ℕ)
    → read_directory v dir ≡ ok (buf, count)
    → (r : Option Entry) × (find_entry_in_dir v dir want ≡ ok r) × Search buf want 0 count r
unfolding find_entry_in_dir
find_entry_in_dir-Search v dir want buf count e =
    (find_loop count 0 buf want, rw e refl, find_loop-Search count 0 buf want)

-- The search of fat16_write_file finds an existing entry exactly where find_entry_in_dir does,
-- whatever free slot it has noted so far.
pub slot_loop-find_loop :
    (n e : ℕ) (root want : Buf) (free : Option ℕ)
    → map (entry_at root) (slot_loop n e root want free).existing ≡ find_loop n e root want
unfolding slot_loop find_loop
slot_loop-find_loop zero e root want free = refl
slot_loop-find_loop (suc n) e root want free =
    let d = entry_at root e in
    let ih = λ (f : Option ℕ). slot_loop-find_loop n (e + 1) root want f in
    elim (Bool-cases (is_end d)) [
      | inl x ↦ rw x refl
      | inr x ↦ elim (Bool-cases (is_deleted d || is_special d)) [
        | inl y ↦ rw (x, y) (ih (if is_deleted d then or_else free e else free))
        | inr y ↦ elim (Bool-cases (names_match 11 0 d.name want)) [
          | inl z ↦ rw (x, y, z) refl
          | inr z ↦ rw (x, y, z) (ih (if is_deleted d then or_else free e else free))
        ]
      ]
    ]

-- An entry that may be given to a new file.
abbrev pub is_vacant : Entry → Bool
is_vacant d = is_end d || is_deleted d

abbrev pub Vacant : Buf → ℕ → Option ℕ → Type 0
Vacant root n none = Unit
Vacant root n (some i) = (i < n) × (is_vacant (entry_at root i) ≡ true)

-- A path that starts with a slash is resolved to the root directory for a listing, whatever
-- follows.
pub resolve_directory-slash :
    (v : Volume) (path : List ℕ) → resolve_directory v (slash ∷ path) ≡ ok (some 0)
unfolding resolve_directory directory_loop component
resolve_directory-slash v path =
    let z : length path + 2 ≡ suc (length path + 1) = omega arith in
    ap (λ rounds. directory_loop rounds v 0 (slash ∷ path)) z
