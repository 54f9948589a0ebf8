-- ===== src/Vfs/Reading.antt =====
-- vfs_read_file of kernel/src/vfs.c over the file system and the heap.
use reborn_os.Prelude.{
  ℕ, ◌^◌, Bool, ◌<◌, ◌≡◌, refl, sym, ◌∙◌, inl, inr, true, false, Option, some, List, min, ◌==◌,
  ==_self, Bool-cases, ==_iff, arith, Outcome, ok, panic, subst,
}
use reborn_os.Heap.{Heap, kmalloc}
use reborn_os.Heap.Cells.{IsHeap, Cell, fit_pointer}
use reborn_os.Heap.Alloc.{kmalloc-first_fit}
use reborn_os.Heap.{align_up, heap_base}
use reborn_os.Heap.Live.{Fresh, kmalloc-Fresh}
use reborn_os.Fat16.Name.{Buf}
use reborn_os.Fat16.Volume.{Volume, fresh}
use reborn_os.Fat16.File.{FileRef, fat16_open}
use reborn_os.Fat16.Chain.{Mounted, Holds, Copied, fat16_read-Copied}
use reborn_os.Vfs.Defs.{VfsPanic, no_buffer, Loaded, read_opened, vfs_read_file}

-- What vfs_read_file gives for a file that holds the bytes of `src`: a panic for want of memory, or
-- a copy of the file in a block of the heap that no other allocation has.
pub data FileRead (src : Buf) (size : ℕ) (cs : List Cell) (h : Heap)
    : Outcome VfsPanic (Option Loaded × Heap) → Type 0 where
  no_memory : {t : Heap} → kmalloc h size ≡ some (0, t) → FileRead src size cs h (panic no_buffer)
  read :
      (l : Loaded) {h' : Heap}
      → l.size ≡ size
      → Copied src 0 size fresh 0 l.bytes
      → Fresh size cs l.buf h'
      → FileRead src size cs h (ok (some l, h'))

read_opened-FileRead :
    (v : Volume) (src : Buf) (file : FileRef) (h : Heap) (cs : List Cell)
    → Mounted v
    → Holds v src file.cluster 0 file.size
    → IsHeap h cs
    → 0 < file.size
    → file.size < 2 ^ 32
    → FileRead src file.size cs h (read_opened v h (some file))
unfolding read_opened
read_opened-FileRead v src file h cs m holds heap pos small =
    let (t, e, v') = kmalloc-first_fit h cs file.size heap pos in
    let p = fit_pointer (align_up file.size) heap_base cs in
    let (out, reads, same) = fat16_read-Copied v src fresh file file.size m holds in
    let whole : min file.size file.size ≡ file.size = omega arith in
    elim (Bool-cases (p == 0)) [
      | inl z ↦
          rw (e, z)
            (no_memory (subst (λ q. kmalloc h file.size ≡ some (q, t)) ((==_iff p 0).0 z) e))
      | inr z ↦
          rw (e, z, reads, whole, ==_self file.size)
            (read (record { buf = p; bytes = out; size = file.size }) refl
              (subst (λ n. Copied src 0 n fresh 0 out) whole same)
              (kmalloc-Fresh h cs file.size p heap pos (omega arith) e
                λ zero_p. absurd (true_ne_false (sym ((==_iff p 0).1 zero_p) ∙ z))))
    ]
  where
    true_ne_false : ◌≡◌ {A = Bool} true false → ⊥
    true_ne_false h = cc

vfs_read_file_opened :
    (v : Volume) (h : Heap) (path : List ℕ) (file : FileRef)
    → fat16_open v path ≡ ok (some file)
    → vfs_read_file v h path ≡ read_opened v h (some file)
unfolding vfs_read_file
vfs_read_file_opened v h path file e = rw e refl

-- The buffers that fat16.c takes from the heap for itself, and the panics when it gets none, are
-- left out here. If a path opens a file of at least one byte whose chain holds the bytes of src,
-- on a volume with clusters of 512-byte sectors and cluster numbers below the end marks, and the
-- headers of the heap tile its region, then vfs_read_file ends in its own panic for want of a
-- buffer only when its kmalloc returns NULL, never in the one for a short read, and else returns
-- the bytes of the file in a block where no allocation was.
pub vfs_read_file-FileRead :
    (v : Volume) (src : Buf) (path : List ℕ) (file : FileRef) (h : Heap) (cs : List Cell)
    → fat16_open v path ≡ ok (some file)
    → Mounted v
    → Holds v src file.cluster 0 file.size
    → IsHeap h cs
    → 0 < file.size
    → file.size < 2 ^ 32
    → FileRead src file.size cs h (vfs_read_file v h path)
vfs_read_file-FileRead v src path file h cs e m holds heap pos small =
    rw (vfs_read_file_opened v h path file e)
      (read_opened-FileRead v src file h cs m holds heap pos small)

-- If a path opens an empty file, vfs_read_file ends in a panic: kmalloc(0) is NULL.
pub vfs_read_file_empty :
    (v : Volume) (path : List ℕ) (file : FileRef) (h : Heap)
    → fat16_open v path ≡ ok (some file)
    → file.size ≡ 0
    → vfs_read_file v h path ≡ panic no_buffer
unfolding vfs_read_file read_opened kmalloc
vfs_read_file_empty v path file h e z = rw (e, z) refl
