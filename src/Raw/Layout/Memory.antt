-- ===== src/Raw/Layout/Memory.antt =====
-- The byte memory of a table: tags and overflow bits, by the layout of src/raw/group_layout.rs.
use optimap.Prelude.{
  ℕ, ◌+◌, ◌-◌, ◌*◌, ◌%◌, ◌^◌, ◌≤◌, ◌<◌, ◌==◌, ◌≡◌, ◌≢◌, ◌&&◌, ◌||◌, not, bit_and, bit_or,
  if◌then◌else◌, Bool, true, sym, arith,
}
use native.Mathlib.Decide.{ℕ_discrete}
use optimap.Prelude.Bits.{bit_and_mask}
use optimap.Prelude.Mod.{addr_inj_row, addr_inj_col, addr-lt}
use optimap.Raw.Tag.{overflow_channel, channel_index}
use optimap.Raw.Tag.Bounds.{channel_index-lt}
use optimap.Raw.Group.{Bytes, store, set_meta}
use optimap.Raw.Overflow.{
  OverflowStrategy, byte_separate, bit_separate, embedded, overflow_ptr, overflow_bit, has_overflow,
  set_overflow,
}
use optimap.Raw.Overflow.Bit.{and-or_bit, or_bit-lt}
use optimap.Raw.Layout.{Layout, IsLayout, reserved}

-- `meta_ptr`
abbrev pub meta_ptr : Layout → ℕ → ℕ
meta_ptr l gi = gi * l.meta_stride

-- The tag byte of a slot.
unfoldable pub tag_at : Layout → Bytes → ℕ → ℕ → ℕ
tag_at l m gi si = m (meta_ptr l gi + si)

-- The overflow bit of a group for a hash, and setting it.
unfoldable pub has_at : Layout → ℕ → Bytes → ℕ → ℕ → Bool
has_at l mask m gi h =
    has_overflow l.overflow m (overflow_ptr l.overflow mask gi l.meta_stride) gi
      (overflow_channel l.tag_kind h)

unfoldable pub put_overflow : Layout → ℕ → Bytes → ℕ → ℕ → Bytes
put_overflow l mask m gi h =
    set_overflow l.overflow m (overflow_ptr l.overflow mask gi l.meta_stride) gi
      (overflow_channel l.tag_kind h)

unfoldable pub put_tag : Layout → Bytes → ℕ → ℕ → ℕ → Bytes
put_tag l m gi si v = set_meta m (meta_ptr l gi) si v

abbrev pub IsBytes : Bytes → Type 0
IsBytes m = (a : ℕ) → m a < 256

-- Two hashes with these channel indices use one overflow bit of a group.
unfoldable pub shares : OverflowStrategy → ℕ → ℕ → Bool
shares byte_separate c d = c == d
shares bit_separate c d = true
shares embedded c d = c == d

unfoldable pub same_bit : Layout → ℕ → ℕ → Bool
same_bit l h h' = shares l.overflow (channel_index l.tag_kind h) (channel_index l.tag_kind h')

-- An overflow byte is no metadata byte of a slot.
ptr_apart :
    (o : OverflowStrategy) (mask stride gi gj si g : ℕ)
    → gi ≤ mask
    → gj ≤ mask
    → si < g
    → g + reserved o ≤ stride
    → overflow_ptr o mask gj stride ≢ gi * stride + si
unfolding overflow_ptr
ptr_apart byte_separate mask stride gi gj si g a b c d e =
    absurd (omega (arith, addr-lt stride (mask + 1) gi si (omega arith) (omega arith)))
ptr_apart bit_separate mask stride gi gj si g a b c d e =
    absurd (omega (arith, addr-lt stride (mask + 1) gi si (omega arith) (omega arith)))
ptr_apart embedded mask stride gi gj si g a b c d e = absurd (
    omega
      (arith, addr_inj_col stride gj gi (stride - 1) si (omega arith) (omega arith) (omega arith)))

store_self : (m : Bytes) (a v : ℕ) → store m a v a ≡ v
unfolding store
store_self m a v = ground arith

store_ne : (m : Bytes) (a v b : ℕ) → b ≢ a → store m a v b ≡ m b
unfolding store
store_ne m a v b h = ground arith

-- A bit that is read at `p'` after another, or the same, was set at `p`.
bit_change :
    (m : Bytes) (p p' c d : ℕ) (b : Bool)
    → m p < 256
    → c < 8
    → d < 8
    → b ≡ (p == p' && c == d)
    → not (bit_and (store m p (bit_or (m p) (2 ^ c)) p') (2 ^ d) == 0)
      ≡ not (bit_and (m p') (2 ^ d) == 0) || b
bit_change m p p' c d b hb hc hd e = elim (ℕ_discrete p' p) [
  | yes q ↦
      rw (e, q, store_self m p (bit_or (m p) (2 ^ c)))
        (ground (arith, and-or_bit (m p) c d hb hc hd))
  | no q ↦ rw (e, store_ne m p (bit_or (m p) (2 ^ c)) p' q) (ground arith)
]

has-set :
    (o : OverflowStrategy) (mask stride : ℕ) (m : Bytes) (gi gj c d : ℕ)
    → 0 < stride
    → IsBytes m
    → c < 8
    → d < 8
    → has_overflow o
        (set_overflow o m (overflow_ptr o mask gi stride) gi (2 ^ c))
        (overflow_ptr o mask gj stride)
        gj
        (2 ^ d)
      ≡ has_overflow o m (overflow_ptr o mask gj stride) gj (2 ^ d) || (gi == gj && shares o c d)
unfolding has_overflow set_overflow overflow_ptr overflow_bit shares
has-set byte_separate mask stride m gi gj c d pos b hc hd =
    bit_change m _ _ c d _ (b _) hc hd (ground arith)
has-set bit_separate mask stride m gi gj c d pos b hc hd =
    rw (bit_and_mask 3 gi, bit_and_mask 3 gj)
      (bit_change m _ _ (gi % 8) (gj % 8) _ (b _) (omega arith) (omega arith) (ground arith))
has-set embedded mask stride m gi gj c d pos b hc hd = bit_change m _ _ c d _ (b _) hc hd (
    ground (arith, addr_inj_row stride gi gj (stride - 1) (stride - 1) (omega arith) (omega arith)))

set_overflow-IsBytes :
    (o : OverflowStrategy) (m : Bytes) (p gi c : ℕ)
    → IsBytes m
    → c < 8
    → IsBytes (set_overflow o m p gi (2 ^ c))
unfolding set_overflow overflow_bit store
set_overflow-IsBytes byte_separate m p gi c b hc a = ground (arith, b a, or_bit-lt (m p) c (b p) hc)
set_overflow-IsBytes bit_separate m p gi c b hc a =
    rw (bit_and_mask 3 gi) (ground (arith, b a, or_bit-lt (m p) (gi % 8) (b p) (omega arith)))
set_overflow-IsBytes embedded m p gi c b hc a = ground (arith, b a, or_bit-lt (m p) c (b p) hc)

module _ (l : Layout) (ok : IsLayout l) (mask : ℕ) (m : Bytes) where
  -- Writing the tag of a slot is seen at that slot, and changes the tag of no other slot.
  pub tag_at-put_tag :
      (gi si v gj sj : ℕ)
      → si < l.group_size
      → sj < l.group_size
      → tag_at l (put_tag l m gi si v) gj sj
        ≡ (if gi == gj && si == sj then v else tag_at l m gj sj)
  unfolding tag_at put_tag set_meta store
  tag_at-put_tag gi si v gj sj p q =
      let s = l.meta_stride in
      let w : l.group_size ≤ s = omega (arith, ok.slots_fit) in
      ground (
        arith,
        addr_inj_row s gi gj si sj (omega arith) (omega arith),
        addr_inj_col s gi gj si sj (omega arith) (omega arith),
      )

  -- Setting an overflow bit changes the tag of no slot.
  pub tag_at-put_overflow :
      (gi gj sj h : ℕ)
      → gi ≤ mask
      → gj ≤ mask
      → sj < l.group_size
      → tag_at l (put_overflow l mask m gi h) gj sj ≡ tag_at l m gj sj
  unfolding tag_at put_overflow set_overflow
  tag_at-put_overflow gi gj sj h a b c = store_ne m _ _ _ (λ e.
      ptr_apart l.overflow mask l.meta_stride gj gi sj l.group_size b a c ok.slots_fit (sym e))

  -- Writing the tag of a slot changes no overflow bit.
  pub has_at-put_tag :
      (gi si v gj h : ℕ)
      → gi ≤ mask
      → gj ≤ mask
      → si < l.group_size
      → has_at l mask (put_tag l m gi si v) gj h ≡ has_at l mask m gj h
  unfolding has_at put_tag has_overflow set_meta
  has_at-put_tag gi si v gj h a b c = rw (
      store_ne m (meta_ptr l gi + si) v (overflow_ptr l.overflow mask gj l.meta_stride)
        (ptr_apart l.overflow mask l.meta_stride gi gj si l.group_size a b c ok.slots_fit))

  pub IsBytes-put_tag : (gi si v : ℕ) → v < 256 → IsBytes m → IsBytes (put_tag l m gi si v)
  unfolding put_tag set_meta store
  IsBytes-put_tag gi si v h b a = ground (arith, b a)

  -- Setting the overflow bit of a group for one hash is seen at that group by the hashes that share
  -- the bit, and changes no other overflow bit. The memory holds bytes.
  pub has_at-put_overflow :
      (gi gj h h' : ℕ)
      → IsBytes m
      → has_at l mask (put_overflow l mask m gi h) gj h'
        ≡ has_at l mask m gj h' || (gi == gj && same_bit l h h')
  unfolding has_at put_overflow overflow_channel same_bit
  has_at-put_overflow gi gj h h' b =
      has-set l.overflow mask l.meta_stride m gi gj _ _ (omega (arith, ok.slots_fit, ok.slots_pos))
        b (channel_index-lt l.tag_kind h) (channel_index-lt l.tag_kind h')

  pub IsBytes-put_overflow : (gi h : ℕ) → IsBytes m → IsBytes (put_overflow l mask m gi h)
  unfolding put_overflow overflow_channel
  IsBytes-put_overflow gi h b =
      set_overflow-IsBytes l.overflow m _ gi _ b (channel_index-lt l.tag_kind h)
