-- ===== src/Program/Main.antt =====
-- `main` of bgpparse.c without the file's opening, the clock and the report: start-up, the passes that
-- the command line asks for, and the division that the last line of the report makes. An `int` is a
-- 32-bit word, negative from 2 ^ 31 on.
use fastparse.Prelude.{
  ℕ, zero, suc, ◌+◌, ◌-◌, ◌/◌, ◌%◌, ◌^◌, Bool, not, ◌&&◌, ◌==◌, if◌then◌else◌, ltb, Option, none,
  some, Result, ok, err, undefined, ◌>>=◌,
}
use fastparse.Bytes.{Bytes}
use fastparse.Locrib.{Locrib}
use fastparse.Parse.{Options}
use fastparse.Program.{Program, init, buf_parse}

-- What `sscanf` reads from the second, third and fourth argument, `none` where there is no such
-- argument or no number in it.
pub record Arguments : Type 0 where
  pub repeat : Option ℕ
  pub msg_max : Option ℕ
  pub spare : Option ℕ

abbrev pub given_or : Option ℕ → ℕ → ℕ
given_or none otherwise = otherwise
given_or (some tmp) otherwise = tmp

-- `msg_max = tmp`, an `int` made a `uint64_t`.
abbrev pub extend : ℕ → ℕ
extend tmp = if ltb tmp (2 ^ 31) then tmp else tmp + 2 ^ 64 - 2 ^ 32

unfoldable pub options : Arguments → Options
options args = record { msg_max = extend (given_or args.msg_max 0); spare = given_or args.spare 0 }

-- `repeat > 1`
abbrev pub is_repeated : ℕ → Bool
is_repeated repeat = ltb 1 repeat && ltb repeat (2 ^ 31)

-- How often `for (i = 0; i < repeat; i++)` runs its body.
abbrev pub rounds : ℕ → ℕ
rounds repeat = if ltb repeat (2 ^ 31) then repeat else 0

abbrev pub magnitude : ℕ → ℕ
magnitude w = if ltb w (2 ^ 31) then w else 2 ^ 32 - w

abbrev pub alike : Bool → Bool → Bool
alike a b = if a then b else not b

-- `a / b` of two `int`s.
unfoldable pub divide : ℕ → ℕ → Result ℕ
divide a b =
    if b == 0
    then err undefined
    else if (a == 2 ^ 31) && (b == 2 ^ 32 - 1)
    then err undefined
    else (let q = magnitude a / magnitude b in
        ok (if alike (ltb a (2 ^ 31)) (ltb b (2 ^ 31)) then q else (2 ^ 32 - q) % 2 ^ 32))

-- What the program is run with: the fuel of a pass, what an unset flag reads as, what `malloc` leaves in
-- the journal of each pass, the mapped file and its length.
pub record Setting : Type 0 where
  pub fuel : ℕ
  pub garbage : Bool
  pub entries : ℕ → ℕ → ℕ
  pub file : Bytes
  pub length : ℕ

abbrev pub one_pass : Setting → Options → ℕ → Program → Result (Program × ℕ)
one_pass c opts i p = buf_parse c.fuel c.garbage (c.entries i) opts c.file p 0 c.length

unfoldable pub passes : ℕ → Setting → Options → Program → Result Program
passes zero c opts p = ok p
passes (suc n) c opts p = do (p', message_count) ← one_pass c opts n p; passes n c opts p'

-- The round in front, which is not measured.
unfoldable pub warm_up : ℕ → Setting → Options → Program → Result Program
warm_up repeat c opts p =
    if is_repeated repeat then (do (p', message_count) ← one_pass c opts repeat p; ok p') else ok p

-- The program at its end, and the number of overlong prefixes that it prints.
unfoldable pub main :
    Arguments → Setting → ℕ → ℕ → ℕ → Locrib → (ℕ → ℕ) → (ℕ → ℕ) → Result (Program × ℕ)
main args c host_1 host_2 slab no_locrib no_journal words = do
  let repeat = given_or args.repeat 1
  p ← init host_1 host_2 slab no_locrib no_journal words
  p' ← warm_up repeat c (options args) p
  p'' ← passes (rounds repeat) c (options args) p'
  ignored ← divide p''.system.too_long repeat
  ok (p'', ignored)
