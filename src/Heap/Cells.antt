-- ===== src/Heap/Cells.antt =====
-- The blocks of kernel/src/heap.c as a list: sizes and free flags, in address order, that tile the
-- region. First fit and the merge on free are functions of that list.
use reborn_os.Prelude.{
  ℕ, ◌+◌, ◌-◌, ◌*◌, ◌≤◌, ◌≡◌, Bool, true, false, ◌&&◌, not, Option, none, some, List, [], ◌∷◌, ltb,
  leb, ◌==◌, if◌then◌else◌, arith, length, ◌∙◌,
}
use reborn_os.Heap.Defs.{Block, Headers, Heap, heap_base, heap_end, header_size, heap_align}

pub record Cell : Type 0 where
  pub size : ℕ
  pub is_free : Bool

abbrev pub cell : ℕ → Bool → Cell
cell n f = record { size = n; is_free = f }

-- The address behind a block.
abbrev pub behind : ℕ → Cell → ℕ
behind a c = a + header_size + c.size

-- The pointer to the blocks from address `a` on: NULL if there are none.
abbrev pub link : ℕ → List Cell → ℕ
link a [] = 0
link a (c ∷ cs) = a

abbrev pub block_of : ℕ → Cell → List Cell → Block
block_of a c cs = record { size = c.size; is_free = c.is_free; next = link (behind a c) cs }

-- The headers from address `a` on hold the blocks of the list, one right behind the other, up to
-- the end of the region.
abbrev pub Chain : Headers → ℕ → List Cell → Type 0
Chain m a [] = a ≡ heap_end
Chain m a (c ∷ cs) = (m a ≡ block_of a c cs) × Chain m (behind a c) cs

pub record IsHeap (h : Heap) (cs : List Cell) : Type 0 where
  pub head_is : h.head ≡ link heap_base cs
  pub chain : Chain h.headers heap_base cs

-- First fit: the first free block that is large enough is taken, and split if the rest has room for
-- a header and 16 bytes.
abbrev pub fits : ℕ → Cell → Bool
fits n c = c.is_free && leb n c.size

abbrev pub split : ℕ → Cell → List Cell → List Cell
split n c cs =
    if ltb c.size (n + header_size + heap_align)
    then cell c.size false ∷ cs
    else cell n false ∷ cell (c.size - n - header_size) true ∷ cs

unfoldable pub first_fit : ℕ → List Cell → List Cell
first_fit n [] = []
first_fit n (c ∷ cs) = let rest = first_fit n cs in if fits n c then split n c cs else c ∷ rest

-- The pointer that first fit returns.
unfoldable pub fit_pointer : ℕ → ℕ → List Cell → ℕ
fit_pointer n a [] = 0
fit_pointer n a (c ∷ cs) =
    let rest = fit_pointer n (behind a c) cs in if fits n c then a + header_size else rest

-- Freeing the block at address `p`: it takes in the block behind it if that one is free.
abbrev pub absorb : Cell → List Cell → List Cell
absorb c [] = cell c.size true ∷ []
absorb c (d ∷ cs) =
    if d.is_free
    then cell (c.size + (header_size + d.size)) true ∷ cs
    else cell c.size true ∷ d ∷ cs

unfoldable pub free_at : ℕ → ℕ → List Cell → List Cell
free_at p a [] = []
free_at p a (c ∷ cs) =
    let rest = free_at p (behind a c) cs in if a == p then absorb c cs else c ∷ rest

-- The live allocations: the size of the used block whose header is at `x`.
unfoldable pub live : ℕ → List Cell → ℕ → Option ℕ
live a [] x = none
live a (c ∷ cs) x = if (a == x) && not c.is_free then some c.size else live (behind a c) cs x

-- The bytes in free blocks.
unfoldable pub free_total : List Cell → ℕ
free_total [] = 0
free_total (c ∷ cs) = (if c.is_free then c.size else 0) + free_total cs

pub Chain-le :
    (m : Headers) (a : ℕ) (cs : List Cell) → Chain m a cs → a + header_size * length cs ≤ heap_end
Chain-le m a [] h = omega arith
Chain-le m a (c ∷ cs) h = omega (arith, Chain-le m (behind a c) cs h.1)

-- Only the headers from `a` on count.
pub Chain-agree :
    (m m' : Headers) (a : ℕ) (cs : List Cell)
    → ((x : ℕ) → a ≤ x → m' x ≡ m x)
    → Chain m a cs
    → Chain m' a cs
Chain-agree m m' a [] same h = h
Chain-agree m m' a (c ∷ cs) same h =
    (same a (omega arith) ∙ h.0, Chain-agree m m' (behind a c) cs (λ x l. same x (omega arith)) h.1)
