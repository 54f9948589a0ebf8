-- ===== src/Fat16/NameLaws.antt =====
-- format_83, the listing line and the name comparison of kernel/src/fat16.c on 8.3 names.
use reborn_os.Prelude.{
  ℕ, zero, suc, ◌+◌, ◌≤◌, ◌<◌, ◌≡◌, refl, ap, ◌∙◌, Bool, true, false, ◌&&◌, List, [], ◌∷◌, ◌++◌,
  map, ◌==◌, put, not, arith, length, ==_ne, ==_self,
}
use reborn_os.Fat16.Name.{
  Buf, upcase, base_loop, skip_to_dot, ext_loop, spaces, ext_part, format_83, until_space,
  entry_line,
}

-- A character of a plain name: not a dot or a space.
abbrev pub plain : ℕ → Bool
plain c = not (c == b'.') && not (c == b' ')

abbrev pub AllPlain : List ℕ → Type 0
AllPlain [] = Unit
AllPlain (c ∷ cs) = (plain c ≡ true) × AllPlain cs

-- The upper-case of `cs` written from `i` on.
write_up : Buf → ℕ → List ℕ → Buf
write_up out i [] = out
write_up out i (c ∷ cs) = write_up (put out i (upcase c)) (i + 1) cs

base_loop-dot :
    (room i : ℕ) (out : Buf) (cs rest : List ℕ)
    → AllPlain cs
    → length cs ≤ room
    → base_loop room i out (cs ++ b'.' ∷ rest) ≡ (write_up out i cs, b'.' ∷ rest)
unfolding base_loop write_up
base_loop-dot zero i out [] rest a l = refl
base_loop-dot zero i out (c ∷ cs) rest a l = absurd (omega arith)
base_loop-dot (suc room) i out [] rest a l = refl
base_loop-dot (suc room) i out (c ∷ cs) rest a l =
    let d : (c == b'.') ≡ false = ground arith in
    rw d (base_loop-dot room (i + 1) (put out i (upcase c)) cs rest a.1 (omega arith))

base_loop-end :
    (room i : ℕ) (out : Buf) (cs : List ℕ)
    → AllPlain cs
    → length cs ≤ room
    → base_loop room i out cs ≡ (write_up out i cs, [])
unfolding base_loop write_up
base_loop-end zero i out [] a l = refl
base_loop-end zero i out (c ∷ cs) a l = absurd (omega arith)
base_loop-end (suc room) i out [] a l = refl
base_loop-end (suc room) i out (c ∷ cs) a l =
    let d : (c == b'.') ≡ false = ground arith in
    rw d (base_loop-end room (i + 1) (put out i (upcase c)) cs a.1 (omega arith))

ext_loop-write_up :
    (room i : ℕ) (out : Buf) (cs : List ℕ)
    → length cs ≤ room
    → ext_loop room i out cs ≡ write_up out i cs
unfolding ext_loop write_up
ext_loop-write_up zero i out [] l = refl
ext_loop-write_up zero i out (c ∷ cs) l = absurd (omega arith)
ext_loop-write_up (suc room) i out [] l = refl
ext_loop-write_up (suc room) i out (c ∷ cs) l =
    ext_loop-write_up room (i + 1) (put out i (upcase c)) cs (omega arith)

write_up-below : (out : Buf) (i o : ℕ) (cs : List ℕ) → o < i → write_up out i cs o ≡ out o
unfolding write_up
write_up-below out i o [] h = refl
write_up-below out i o (c ∷ cs) h =
    write_up-below (put out i (upcase c)) (i + 1) o cs (omega arith)
    ∙ rw (==_ne o i (λ e. omega arith))

write_up-above :
    (out : Buf) (i o : ℕ) (cs : List ℕ) → i + length cs ≤ o → write_up out i cs o ≡ out o
unfolding write_up
write_up-above out i o [] h = refl
write_up-above out i o (c ∷ cs) h =
    write_up-above (put out i (upcase c)) (i + 1) o cs (omega arith)
    ∙ rw (==_ne o i (λ e. omega arith))

-- `out` holds the upper-case of `cs` from `i` on.
abbrev Holds : Buf → ℕ → List ℕ → Type 0
Holds out i [] = Unit
Holds out i (c ∷ cs) = (out i ≡ upcase c) × Holds out (i + 1) cs

write_up-Holds : (out : Buf) (i : ℕ) (cs : List ℕ) → Holds (write_up out i cs) i cs
unfolding write_up
write_up-Holds out i [] = tt
write_up-Holds out i (c ∷ cs) = (
  write_up-below (put out i (upcase c)) (i + 1) i cs (omega arith) ∙ rw (==_self i),
  write_up-Holds (put out i (upcase c)) (i + 1) cs,
)

Holds-agree :
    (out out' : Buf) (i : ℕ) (cs : List ℕ)
    → ((o : ℕ) → i ≤ o → o < i + length cs → out' o ≡ out o)
    → Holds out i cs
    → Holds out' i cs
Holds-agree out out' i [] same h = tt
Holds-agree out out' i (c ∷ cs) same h = (
  same i (omega arith) (omega arith) ∙ h.0,
  Holds-agree out out' (i + 1) cs (λ o a b. same o (omega arith) (omega arith)) h.1,
)

until_space-map :
    (n i : ℕ) (out : Buf) (cs : List ℕ)
    → AllPlain cs
    → length cs ≤ n
    → Holds out i cs
    → (length cs < n → out (i + length cs) ≡ b' ')
    → until_space n i out ≡ map upcase cs
unfolding until_space
until_space-map zero i out [] a l h s = refl
until_space-map zero i out (c ∷ cs) a l h s = absurd (omega arith)
until_space-map (suc n) i out [] a l h s =
    let z : i + 0 ≡ i = omega arith in
    let e : out i ≡ b' ' = rw z at (s (omega arith)) in ground arith
until_space-map (suc n) i out (c ∷ cs) a l h s =
    let d : (out i == b' ') ≡ false = ground arith in
    let z : i + 1 + length cs ≡ i + suc (length cs) = omega arith in
    rw (d, h.0)
      (ap (λ r. upcase c ∷ r)
        (until_space-map n (i + 1) out cs a.1 (omega arith) h.1 (λ k. ap out z ∙ s (omega arith))))

-- A file name of an 8.3 pair: the dot is left out if there is no extension.
abbrev pub dotted : List ℕ → List ℕ → List ℕ
dotted base [] = base
dotted base (e ∷ ext) = base ++ b'.' ∷ e ∷ ext

-- At most eight plain characters and at most three.
pub record Is83 (base ext : List ℕ) : Type 0 where
  pub base_plain : AllPlain base
  pub ext_plain : AllPlain ext
  pub base_short : length base ≤ 8
  pub ext_short : length ext ≤ 3

abbrev image : List ℕ → List ℕ → Buf
image base ext = write_up (write_up spaces 0 base) 8 ext

format_83-image : (base ext : List ℕ) → Is83 base ext → format_83 (dotted base ext) ≡ image base ext
unfolding format_83 ext_part skip_to_dot write_up
format_83-image base [] v = rw (base_loop-end 8 0 spaces base v.base_plain v.base_short) refl
format_83-image base (e ∷ ext) v =
    rw (base_loop-dot 8 0 spaces base (e ∷ ext) v.base_plain v.base_short)
      (ext_loop-write_up 3 8 (write_up spaces 0 base) (e ∷ ext) v.ext_short)

module _ (base ext : List ℕ) (v : Is83 base ext) where
  image-base : until_space 8 0 (image base ext) ≡ map upcase base
  image-base =
      until_space-map 8 0 (image base ext) base v.base_plain v.base_short
        (Holds-agree (write_up spaces 0 base) (image base ext) 0 base
          (λ o a b. write_up-below (write_up spaces 0 base) 8 o ext (omega (arith, v.base_short)))
          (write_up-Holds spaces 0 base))
        (λ h.
          write_up-below (write_up spaces 0 base) 8 (0 + length base) ext (omega arith)
          ∙ write_up-above spaces 0 (0 + length base) base (omega arith))

  image-ext : until_space 3 8 (image base ext) ≡ map upcase ext
  image-ext =
      until_space-map 3 8 (image base ext) ext v.ext_plain v.ext_short
        (write_up-Holds (write_up spaces 0 base) 8 ext)
        (λ h.
          write_up-above (write_up spaces 0 base) 8 (8 + length ext) ext (omega arith)
          ∙ write_up-above spaces 0 (8 + length ext) base (omega (arith, v.base_short)))

upcase-space : (c : ℕ) → plain c ≡ true → (upcase c == b' ') ≡ false
upcase-space c h = ground arith

map-dotted :
    (base ext : List ℕ)
    → map upcase base ++ b'.' ∷ (map upcase ext ++ (10 ∷ []))
      ≡ map upcase (base ++ b'.' ∷ ext) ++ (10 ∷ [])
map-dotted [] ext = refl
map-dotted (c ∷ base) ext = ap (λ r. upcase c ∷ r) (map-dotted base ext)

image-dot : (base : List ℕ) → Is83 base [] → image base [] 8 ≡ b' '
unfolding write_up
image-dot base v = write_up-above spaces 0 8 base (omega (arith, v.base_short))

image-line :
    (base ext : List ℕ)
    → Is83 base ext
    → entry_line (image base ext) ≡ map upcase (dotted base ext) ++ (10 ∷ [])
unfolding entry_line
image-line base [] v =
    let s : image base [] 8 ≡ b' ' = image-dot base v in rw (s, image-base base [] v) refl
image-line base (e ∷ ext) v =
    let d : (image base (e ∷ ext) 8 == b' ') ≡ false =
      (ap (λ c. c == b' ') (write_up-Holds (write_up spaces 0 base) 8 (e ∷ ext)).0
        ∙ upcase-space e v.ext_plain.0) in
    rw (d, image-base base (e ∷ ext) v, image-ext base (e ∷ ext) v) (map-dotted base (e ∷ ext))

-- An 8.3 name whose characters are not dots or spaces, stored by format_83, is listed by
-- fat16_list_dir as its upper case and a newline.
pub entry_line-format_83 :
    (base ext : List ℕ)
    → Is83 base ext
    → entry_line (format_83 (dotted base ext)) ≡ map upcase (dotted base ext) ++ (10 ∷ [])
entry_line-format_83 base ext v = ap entry_line (format_83-image base ext v) ∙ image-line base ext v
