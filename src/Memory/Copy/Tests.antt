-- ===== src/Memory/Copy/Tests.antt =====
-- Copies over the boundary of two pages whose frames are not neighbours.
use biglab.Prelude.{
  ℕ, ◌+◌, ◌-◌, ◌*◌, ◌/◌, ◌≡◌, refl, arith, Option, none, some, ltb, ◌==◌, if◌then◌else◌, Bool, true,
  false, ◌&&◌,
}
use biglab.Prelude.Run.{ok, panic, out_of_fuel, blocked}
use biglab.Memory.Copy.{
  Bytes, uvm_copyin, uvm_copyout, uvm_copyin_str, copyin_str_loop, copyin_str_page,
}
use biglab.Memory.Copy.Bytewise.{PageWise}
use biglab.Memory.Copy.In.{copied_in, bytes_in, uvm_copyin-each_byte}
use biglab.Memory.Copy.Roundtrip.{Mapped, uvm_copyin-copyout}
use biglab.Memory.Copy.Str.{text_bytes, Ended, uvm_copyin_str-text_bytes}

-- The page 1 is in the frame 5 and the page 2 in the frame 3, both with the flags V, R, W and U.
abbrev entry_of_page : ℕ → Option ℕ
entry_of_page n =
    if n == 1 then some (5 * 1024 + 23) else if n == 2 then some (3 * 1024 + 23) else none

abbrev two_pages : ℕ → Option ℕ
two_pages va = entry_of_page (va / 4096)

two_pages-PageWise : PageWise two_pages
two_pages-PageWise va vb e = rw e refl

abbrev place_of : ℕ → ℕ
place_of i = if ltb i 2 then 5 * 4096 + 4094 + i else 3 * 4096 + (i - 2)

abbrev letters : Bytes
letters i = 97 + i

abbrev zeros : Bytes
zeros i = 0

six_bytes : Mapped two_pages 8190 6 place_of
six_bytes = record {
  readable = λ i h. ground arith;
  writable = λ i h. ground arith;
  apart = λ i j h l. ground arith;
}

uvm_copyin-copyout_example :
    (mem : Bytes) × (uvm_copyout two_pages 8190 letters 6 zeros ≡ ok tt mem)
    × (uvm_copyin two_pages zeros 8190 6 mem ≡ ok (λ k. if ltb k 6 then letters k else zeros k) mem)
uvm_copyin-copyout_example =
    uvm_copyin-copyout two_pages 8190 6 place_of six_bytes letters zeros zeros two_pages-PageWise

uvm_copyin_example :
    uvm_copyin two_pages zeros 8190 6 letters
    ≡ copied_in letters (bytes_in two_pages two_pages-PageWise letters 8190 6 6 0 zeros)
uvm_copyin_example = uvm_copyin-each_byte two_pages two_pages-PageWise letters 8190 6 zeros

-- A text of three letters over the boundary.
abbrev text : Bytes
text a =
    if a == 20480 + 4094 then 97 else if a == 20480 + 4095 then 98 else if a == 12288 then 99 else 0

uvm_copyin_str_example :
    (uvm_copyin_str two_pages zeros 8190 6 text
      ≡ copied_in text (text_bytes two_pages text 8190 6 6 0 zeros))
    × Ended two_pages text 8190 6 (text_bytes two_pages text 8190 6 6 0 zeros)
uvm_copyin_str_example =
    uvm_copyin_str-text_bytes two_pages text 8190 6 two_pages-PageWise zeros (omega arith)
      (omega arith)

uvm_copyin_str-runs :
    (elim (uvm_copyin_str two_pages zeros 8190 6 text) as (λ r. Bool) [
      | ok dst mem ↦ (dst 1 == 98) && (dst 2 == 99) && (dst 3 == 0)
      | panic ↦ false
      | out_of_fuel ↦ false
      | blocked ↦ false
    ])
    ≡ true
unfolding uvm_copyin_str copyin_str_loop copyin_str_page
uvm_copyin_str-runs = refl
