-- ===== src/Console/Lines.antt =====
-- `cons_edit` edits a line: the ring buffer implements a pair of lists.
use biglab.Prelude.{
  ℕ, zero, suc, ◌+◌, ◌-◌, ◌%◌, ◌≤◌, ◌<◌, ◌≡◌, refl, List, [], ◌∷◌, ◌++◌, arith, update, neb_of_ne,
  sym, false, ◌&&◌, ◌||◌, not, ◌==◌, ltb, if◌then◌else◌, length, u8, Bool-cases, inl, inr, subst,
  eqb→eq, eqb_refl,
}
use biglab.Console.{Console, erase_last, kill_loop, store, cons_edit}
use biglab.Console.Slice.{
  slice, slice-add, drop_last, drop_last-slice, slice-update, slice-store, length-slice,
}

-- What a reader can have, and the line that is being typed.
pub record Lines : Type 0 where
  pub ready : List ℕ
  pub line : List ℕ

abbrev pub view : Console → Lines
view s = record {
  ready = slice s.buf s.read_idx (s.writ_idx - s.read_idx);
  line = slice s.buf s.writ_idx (s.edit_idx - s.writ_idx);
}

abbrev pub add : ℕ → Lines → Lines
add c l =
    let line' = l.line ++ (c ∷ []) in
    if (c == 10) || (length l.ready + length l.line + 1 == 128)
    then (record { ready = l.ready ++ line'; line = [] })
    else (record { ready = l.ready; line = line' })

-- The line editor: Ctrl-U empties the line, Ctrl-H and delete take its last character away, and any
-- other character but 0 is added where the two lists hold less than 128; the end of the
-- line, and the 128th character, pass it on.
abbrev pub edit : ℕ → Lines → Lines
edit c l =
    if c == 21
    then (record l { line = [] })
    else if (c == 8) || (c == 127)
    then (record l { line = drop_last l.line })
    else if not (c == 0) && ltb (length l.ready + length l.line) 128
    then add (if c == 13 then 10 else c) l
    else l

-- The indexes are in order and at most the buffer's size apart, and the line has no end of line in it.
pub record IsConsole (s : Console) : Type 0 where
  pub read_le : s.read_idx ≤ s.writ_idx
  pub writ_le : s.writ_idx ≤ s.edit_idx
  pub room : s.edit_idx ≤ s.read_idx + 128
  pub one_line : (k : ℕ) → s.writ_idx ≤ k → k < s.edit_idx → (s.buf (k % 128) == 10) ≡ false

abbrev pub Edits : Lines → Console → Type 0
Edits l s' = IsConsole s' × (view s' ≡ l)

abbrev cut : ℕ → Console → Console
cut e s = record s { edit_idx = e }

kill_loop-Edits :
    (n : ℕ) (s : Console)
    → n ≡ s.edit_idx - s.writ_idx
    → IsConsole s
    → Edits (record (view s) { line = [] }) (kill_loop n s)
unfolding kill_loop
kill_loop-Edits zero s e v = (v, (let z : s.edit_idx - s.writ_idx ≡ 0 = sym e in rw z refl))
kill_loop-Edits (suc n) s e v =
    let differ : (s.edit_idx == s.writ_idx) ≡ false = ground arith in
    let char : (s.buf ((s.edit_idx - 1) % 128) == 10) ≡ false =
      v.one_line (s.edit_idx - 1) (omega (arith, v.writ_le)) (omega arith) in
    rw (differ, char)
      (kill_loop-Edits n (erase_last s) (omega arith) (record {
        read_le = v.read_le;
        writ_le = omega arith;
        room = omega (arith, v.room);
        one_line = λ k lo hi. v.one_line k lo (omega arith);
      }))

erase-Edits :
    (s : Console)
    → IsConsole s
    → Edits
        (record (view s) { line = drop_last (view s).line })
        (if not (s.edit_idx == s.writ_idx) then erase_last s else s)
erase-Edits s v = elim (Bool-cases (s.edit_idx == s.writ_idx)) [
  | inl e ↦ let z : s.edit_idx - s.writ_idx ≡ 0 = ground arith in rw e (v, rw z refl)
  | inr e ↦
      let m = s.edit_idx - 1 - s.writ_idx in
      let z : s.edit_idx - s.writ_idx ≡ suc m = ground (arith, v.writ_le) in
      rw e (
        record {
          read_le = v.read_le;
          writ_le = ground (arith, v.writ_le);
          room = omega (arith, v.room);
          one_line = λ k lo hi. v.one_line k lo (omega arith);
        },
        rw (z, drop_last-slice s.buf s.writ_idx m) refl,
      )
]

module _ (c : ℕ) (s : Console) (v : IsConsole s) (byte : c < 256)
    (fits : s.edit_idx < s.read_idx + 128) where
  abbrev held : Console
  held = record s {
    buf = update s.buf (s.edit_idx % 128) c;
    edit_idx = s.edit_idx + 1;
    uart = c ∷ s.uart;
  }

  abbrev passed : Console
  passed = record held { writ_idx = s.edit_idx + 1; wakeups = s.wakeups + 1 }

  line_held :
      slice (update s.buf (s.edit_idx % 128) c) s.writ_idx (s.edit_idx + 1 - s.writ_idx)
      ≡ slice s.buf s.writ_idx (s.edit_idx - s.writ_idx) ++ (c ∷ [])
  line_held = slice-store s.buf s.writ_idx s.edit_idx c v.writ_le (omega (arith, fits, v.read_le))

  ready_held :
      slice (update s.buf (s.edit_idx % 128) c) s.read_idx (s.writ_idx - s.read_idx)
      ≡ slice s.buf s.read_idx (s.writ_idx - s.read_idx)
  ready_held =
      slice-update s.buf s.read_idx (s.writ_idx - s.read_idx) s.edit_idx c
        (omega (arith, v.read_le, v.writ_le)) fits

  held-Edits :
      (c == 10) ≡ false
      → Edits (record { ready = (view s).ready; line = (view s).line ++ (c ∷ []) }) held
  held-Edits ne = (
    record {
      read_le = v.read_le;
      writ_le = omega (arith, v.writ_le);
      room = omega (arith, fits);
      one_line = λ k lo hi. elim (Bool-cases (k == s.edit_idx)) [
        | inl e ↦
            subst (λ x. (update s.buf (s.edit_idx % 128) c (x % 128) == 10) ≡ false)
              (sym (eqb→eq k s.edit_idx e)) (rw (eqb_refl (s.edit_idx % 128)) ne)
        | inr e ↦
            rw (neb_of_ne (s.edit_idx % 128) (k % 128) (ground (arith, v.read_le)))
              (v.one_line k lo (ground arith))
      ];
    },
    rw (ready_held, line_held) refl,
  )

  passed-Edits :
      Edits (record { ready = (view s).ready ++ ((view s).line ++ (c ∷ [])); line = [] }) passed
  passed-Edits =
      let whole : s.edit_idx + 1 - s.read_idx
          ≡ s.writ_idx - s.read_idx + (s.edit_idx + 1 - s.writ_idx) =
        omega (arith, v.read_le, v.writ_le) in
      let mid : s.read_idx + (s.writ_idx - s.read_idx) ≡ s.writ_idx = omega (arith, v.read_le) in
      let none : s.edit_idx + 1 - (s.edit_idx + 1) ≡ 0 = omega arith in
      (
        record {
          read_le = omega (arith, v.read_le, v.writ_le);
          writ_le = omega arith;
          room = omega (arith, fits);
          one_line = λ k lo hi. absurd (omega arith);
        },
        rw
            (
              whole,
              slice-add (update s.buf (s.edit_idx % 128) c) s.read_idx (s.writ_idx - s.read_idx)
                  (s.edit_idx + 1 - s.writ_idx),
              mid,
              ready_held,
              line_held,
              none,
            )
            refl,
      )

  full :
      (length (view s).ready + length (view s).line + 1 == 128)
      ≡ (s.edit_idx + 1 == s.read_idx + 128)
  full =
      let n : length (view s).ready + length (view s).line + 1 ≡ s.edit_idx + 1 - s.read_idx =
        omega (
          arith,
          length-slice s.buf s.read_idx (s.writ_idx - s.read_idx),
          length-slice s.buf s.writ_idx (s.edit_idx - s.writ_idx),
          v.read_le,
          v.writ_le,
        ) in
      rw n (ground (arith, v.read_le, v.writ_le))

  store-Edits : Edits (add c (view s)) (store c s)
  store-Edits =
      let b : u8 c ≡ c = omega arith in
      let plain : (c == 256) ≡ false = ground arith in
      rw (b, plain, full)
        (elim (Bool-cases ((c == 10) || (s.edit_idx + 1 == s.read_idx + 128))) [
          | inl e ↦ rw e passed-Edits
          | inr e ↦ rw e (held-Edits (ground (arith, e)))
        ])

-- On a console in order, `cons_edit` of any byte leaves it in order and does to the characters that
-- a reader can have, and to the line that is being typed, what the line editor does.
pub cons_edit-Edits :
    (c : ℕ) (s : Console) → IsConsole s → c < 256 → Edits (edit c (view s)) (cons_edit c s)
unfolding cons_edit
cons_edit-Edits c s v byte = elim (Bool-cases (c == 21)) [
  | inl e ↦ rw e (kill_loop-Edits (s.edit_idx - s.writ_idx) s refl v)
  | inr e ↦ elim (Bool-cases ((c == 8) || (c == 127))) [
    | inl f ↦ rw (e, f) (erase-Edits s v)
    | inr f ↦
        let used : length (view s).ready + length (view s).line ≡ s.edit_idx - s.read_idx = omega (
          arith,
          length-slice s.buf s.read_idx (s.writ_idx - s.read_idx),
          length-slice s.buf s.writ_idx (s.edit_idx - s.writ_idx),
          v.read_le,
          v.writ_le,
        ) in
        let room : ltb (length (view s).ready + length (view s).line) 128
            ≡ ltb (s.edit_idx - s.read_idx) 128 =
          rw used refl in
        rw (e, f, room)
          (elim (Bool-cases (not (c == 0) && ltb (s.edit_idx - s.read_idx) 128)) [
            | inl g ↦ rw g (
                store-Edits (if c == 13 then 10 else c) s v (ground arith)
                  (ground (arith, v.read_le)))
            | inr g ↦ rw g (v, refl)
          ])
  ]
]
