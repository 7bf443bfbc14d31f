-- ===== src/Mkfs/Append.antt =====
-- `inode_append`: the bytes go behind the end of the file, and the bytes before stay.
use biglab.Prelude.{
  ℕ, zero, suc, ◌+◌, ◌-◌, ◌*◌, ◌/◌, ◌%◌, ◌≤◌, ◌<◌, ◌≡◌, ◌≢◌, ◌⊎◌, refl, sym, ap, ◌∙◌, inl, inr,
  true, false, ◌&&◌, arith, ◌==◌, ltb, leb, if◌then◌else◌, update, Bool-cases, eqb→eq, ltb→lt,
  subst, neb_of_ne, eqb_refl,
}
use biglab.Prelude.Run.{ok}
use biglab.Fs.Disk.{Disk}
use biglab.Fs.Bitmap.Bits.{IsBlock}
use biglab.Fs.Bitmap.Search.{IsDisk}
use biglab.Mkfs.{Image, append_loop, put_bytes, block_size}

neb→ne : {a b : ℕ} → (a == b) ≡ false → a ≢ b
neb→ne h e = ground arith

-- The image and what was written last are bytes.
abbrev pub AreBytes : Image → Type 0
AreBytes s = IsDisk s.disk × IsBlock s.data_buf

module _ (index : ℕ → ℕ) (size : ℕ) (src : ℕ → ℕ) (n : ℕ)
    (distinct : (i j : ℕ) → i < n → j < n → index i ≡ index j → i ≡ j) where
  -- The byte `y` of the file.
  abbrev byte : Disk → ℕ → ℕ
  byte disk y = disk (index (y / block_size)) (y % block_size)

  -- The bytes of the file up to `top` are those of before up to `pos`, and of `src` from there.
  pub record Wrote (s s' : Image) (pos top : ℕ) : Type 0 where
    pub bytes :
        (y : ℕ) → y < top → byte s'.disk y ≡ (if ltb y pos then byte s.disk y else src (y - size))
    pub others : (b : ℕ) → ((q : ℕ) → q < n → index q ≢ b) → s'.disk b ≡ s.disk b
    pub same_blocks : s'.global_block_num ≡ s.global_block_num
    pub same_inodes : s'.global_inode_num ≡ s.global_inode_num
    pub fits : AreBytes s → IsBlock src → AreBytes s'

  -- The loop is in the last block of the file, or at the begin of a block behind it.
  abbrev Place : ℕ → ℕ → Type 0
  Place tmp from =
      ((tmp ≡ size / block_size) × (from ≡ 0))
      ⊎ ((size / block_size < tmp) × (tmp * block_size ≡ size + from))

  abbrev offset_of : ℕ → ℕ
  offset_of tmp = if tmp == size / block_size then size % block_size else 0

  abbrev cut_of : ℕ → ℕ → ℕ
  cut_of tmp len = if ltb (block_size - offset_of tmp) len then block_size - offset_of tmp else len

  abbrev round : ℕ → ℕ → ℕ → Image → Image
  round tmp from len s =
      let old = if tmp == size / block_size then s.disk (index tmp) else s.data_buf in
      let buf = put_bytes old (offset_of tmp) src from (cut_of tmp len) in
      record s { data_buf = buf; disk = update s.disk (index tmp) buf }

  position : (tmp from : ℕ) → Place tmp from → tmp * block_size + offset_of tmp ≡ size + from
  position tmp from (inl (e, z)) = ground (arith, e, z)
  position tmp from (inr (lt, e)) = ground (arith, lt, e)

  offset_small : (tmp : ℕ) → offset_of tmp < block_size
  offset_small tmp = ground arith

  cut_fits :
      (tmp len : ℕ)
      → 0 < len
      → (0 < cut_of tmp len)
        × (cut_of tmp len ≤ len)
        × (offset_of tmp + cut_of tmp len ≤ block_size)
  cut_fits tmp len pos = ground (arith, offset_small tmp)

  -- The byte `x` of the block that a round writes.
  round_byte :
      (tmp from len y x : ℕ) (s : Image)
      → Place tmp from
      → y ≡ tmp * block_size + x
      → y < size + from + cut_of tmp len
      → (round tmp from len s).data_buf x
        ≡ (if ltb y (size + from) then s.disk (index tmp) x else src (y - size))
  round_byte tmp from len y x s place e h =
      let p = position tmp from place in
      elim (Bool-cases (ltb y (size + from))) [
        | inl lt ↦
            let before : leb (offset_of tmp) x ≡ false = ground (arith, e, p, lt) in
            let first : (tmp == size / block_size) ≡ true = ground (arith, e, p, lt, before) in
            rw (lt, before, first) refl
        | inr ge ↦
            let within : (leb (offset_of tmp) x && ltb x (offset_of tmp + cut_of tmp len)) ≡ true =
              ground (arith, e, p, ge, h) in
            let at_place : from + (x - offset_of tmp) ≡ y - size = omega (arith, e, p, within) in
            rw (ge, within) (ap src at_place)
      ]

  buf_fits :
      (tmp from len : ℕ) (s : Image)
      → IsDisk s.disk
      → IsBlock s.data_buf
      → IsBlock src
      → IsBlock (round tmp from len s).data_buf
  buf_fits tmp from len s d b f a =
      ground (arith, f (from + (a - offset_of tmp)), b a, d (index tmp) a)

  round_fits :
      (tmp from len : ℕ) (s : Image)
      → IsDisk s.disk
      → IsBlock s.data_buf
      → IsBlock src
      → IsDisk (round tmp from len s).disk
  round_fits tmp from len s d b f c a = elim (Bool-cases (index tmp == c)) [
    | inl e ↦ rw e (buf_fits tmp from len s d b f a)
    | inr e ↦ rw e (d c a)
  ]

  -- A round writes the rest of a block, or what is left.
  round-Wrote :
      (tmp from len : ℕ) (s : Image)
      → Place tmp from
      → 0 < len
      → size + from + len ≤ n * block_size
      → Wrote s (round tmp from len s) (size + from) (size + from + cut_of tmp len)
  round-Wrote tmp from len s place pos room =
      let p = position tmp from place in
      let (some_cut, cut_le, cut_block) = cut_fits tmp len pos in
      let inside : tmp < n = omega (arith, p, pos, room, offset_small tmp) in
      record {
        bytes = λ y h. elim (Bool-cases (tmp == y / block_size)) [
          | inl e ↦
              let te = eqb→eq tmp (y / block_size) e in
              let x = y % block_size in
              let written : (round tmp from len s).disk (index tmp) x
                  ≡ (round tmp from len s).data_buf x =
                rw (eqb_refl (index tmp)) refl in
              ap (λ q. (round tmp from len s).disk (index q) x) (sym te)
              ∙ written
              ∙ round_byte tmp from len y x s place (omega (arith, te)) h
              ∙ ap (λ q. if ltb y (size + from) then s.disk (index q) x else src (y - size)) te
          | inr e ↦
              let other : (index tmp == index (y / block_size)) ≡ false =
                neb_of_ne (index tmp) (index (y / block_size)) λ z.
                  neb→ne e
                    (distinct tmp (y / block_size) inside (omega (arith, h, cut_le, room)) z) in
              let before : ltb y (size + from) ≡ true = ground (arith, e, h, p, cut_block) in
              rw (other, before) refl
        ];
        others = λ b ne. rw (neb_of_ne (index tmp) b (ne tmp inside)) refl;
        same_blocks = refl;
        same_inodes = refl;
        fits = λ (d, b) f. (round_fits tmp from len s d b f, buf_fits tmp from len s d b f);
      }

  Wrote-trans :
      {s s' s'' : Image} (pos mid top : ℕ)
      → pos ≤ mid
      → Wrote s s' pos mid
      → Wrote s' s'' mid top
      → Wrote s s'' pos top
  Wrote-trans {s = s} pos mid top le v w = record {
    bytes = λ y h. elim (Bool-cases (ltb y mid)) [
      | inl e ↦ w.bytes y h ∙ (rw e (v.bytes y (ltb→lt y mid e)))
      | inr e ↦
          let beyond : ltb y pos ≡ false = ground (arith, e, le) in
          w.bytes y h ∙ (rw (e, beyond) refl)
    ];
    others = λ b ne. w.others b ne ∙ v.others b ne;
    same_blocks = w.same_blocks ∙ v.same_blocks;
    same_inodes = w.same_inodes ∙ v.same_inodes;
    fits = λ b f. w.fits (v.fits b f) f;
  }

  Wrote-refl : (s : Image) (pos : ℕ) → Wrote s s pos pos
  Wrote-refl s pos = record {
    bytes = λ y h. let e : ltb y pos ≡ true = ground (arith, h) in rw e refl;
    others = λ b ne. refl;
    same_blocks = refl;
    same_inodes = refl;
    fits = λ b f. b;
  }

  next_place :
      (tmp from len : ℕ)
      → Place tmp from
      → (len - cut_of tmp len ≡ 0) ⊎ Place (tmp + 1) (from + cut_of tmp len)
  next_place tmp from len place =
      let p = position tmp from place in
      let behind : size / block_size < tmp + 1 = ground (arith, place) in
      elim (Bool-cases (ltb (block_size - offset_of tmp) len)) [
        | inl e ↦ inr (inr (behind, ground (arith, e, p, offset_small tmp)))
        | inr e ↦ inl (ground (arith, e))
      ]

  -- The bytes are appended: the loop returns after at most one round for each byte.
  pub append_loop-Wrote :
      (fuel tmp from len : ℕ) (s : Image)
      → len ≤ fuel
      → (len ≡ 0) ⊎ Place tmp from
      → size + from + len ≤ n * block_size
      → (s' : Image) × (append_loop fuel index size src tmp from len s ≡ ok tt s')
        × Wrote s s' (size + from) (size + from + len)
  unfolding append_loop
  append_loop-Wrote fuel tmp from zero s le place room =
      (s, refl, subst (λ t. Wrote s s (size + from) t) (omega arith) (Wrote-refl s (size + from)))
  append_loop-Wrote zero tmp from (suc len) s le place room = absurd (omega (arith, le))
  append_loop-Wrote (suc fuel) tmp from (suc len) s le (inl z) room = absurd (omega (arith, z))
  append_loop-Wrote (suc fuel) tmp from (suc len) s le (inr place) room =
      let p = position tmp from place in
      let (some_cut, cut_le, cut_block) = cut_fits tmp (suc len) (omega arith) in
      let cut = cut_of tmp (suc len) in
      let s₁ = round tmp from (suc len) s in
      let next : (suc len - cut ≡ 0) ⊎ Place (tmp + 1) (from + cut) =
        next_place tmp from (suc len) place in
      let (s', run, w) =
        append_loop-Wrote fuel (tmp + 1) (from + cut) (suc len - cut) s₁
          (omega (arith, le, some_cut)) next (omega (arith, room, cut_le)) in
      let mid : size + (from + cut) ≡ size + from + cut = omega arith in
      let top : size + (from + cut) + (suc len - cut) ≡ size + from + suc len =
        omega (arith, cut_le) in
      (
        s',
        run,
        Wrote-trans (size + from) (size + from + cut) (size + from + suc len) (omega arith)
            (round-Wrote tmp from (suc len) s place (omega arith) room)
            (subst (λ t. Wrote s₁ s' t (size + from + suc len)) mid
              (subst (λ t. Wrote s₁ s' (size + (from + cut)) t) top w)),
      )
