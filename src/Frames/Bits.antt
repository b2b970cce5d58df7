-- ===== src/Frames/Bits.antt =====
-- What the writes to the bitmap do, page by page and word by word.
use stable_genius.Common.{
  ℕ, zero, suc, ◌+◌, ◌≡◌, Bool, false, ◌&&◌, ◌||◌, arith, ltb, leb, ◌==◌, if◌then◌else◌,
}
use stable_genius.Frames.{Bitmap, page_used, mark, unmark, fill, mark_from, fill_from}

pub page_used-mark : (m : Bitmap) (i j : ℕ) → page_used (mark m i) j ≡ (j == i || page_used m j)
unfolding mark
page_used-mark m i j = ground arith

pub page_used-unmark :
    (m : Bitmap) (i j : ℕ) → page_used (unmark m i) j ≡ (if j == i then false else page_used m j)
unfolding unmark
page_used-unmark m i j = ground arith

pub page_used-mark_from :
    (n i : ℕ) (m : Bitmap) (j : ℕ)
    → page_used (mark_from n i m) j ≡ ((leb i j && ltb j (i + n)) || page_used m j)
unfolding mark_from
page_used-mark_from zero i m j = ground arith
page_used-mark_from (suc n) i m j =
    ground (arith, page_used-mark_from n (i + 1) (mark m i) j, page_used-mark m i j)

pub fill_from_lem :
    (v : Bool) (n w : ℕ) (m : Bitmap) (k b : ℕ)
    → fill_from v n w m k b ≡ (if leb w k && ltb k (w + n) then v else m k b)
unfolding fill_from fill
fill_from_lem v zero w m k b = ground arith
fill_from_lem v (suc n) w m k b = ground (arith, fill_from_lem v n (w + 1) (fill v m w) k b)
