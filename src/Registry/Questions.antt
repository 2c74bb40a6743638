-- ===== src/Registry/Questions.antt =====
-- src/windows-emulator/registry/hive_parser.hpp: sequences of questions to a hive.
use emulator_momo.Common.{
  ◌≡◌, refl, sym, ap, ◌∙◌, subst, Bool, Option, List, [], ◌∷◌, Result, ok, thrown, ◌>>=◌,
}
use emulator_momo.Serialization.Buffer.{Bytes}
use emulator_momo.Registry.File.{rounds_int}
use emulator_momo.Registry.Hive.{
  HiveValue, new_key, Place, HiveKey, place_of, parse, get_value, value_at, has_sub_key,
  parse_root_block,
}
use emulator_momo.Registry.Stopped.{reached, reached-Fresh, parse-reached, value_in-Fresh}
use emulator_momo.Registry.Listing.{
  last_named, loaded_option, listing, listed_value, listed_sub_key,
}
use emulator_momo.Registry.Cached.{Cached}
use emulator_momo.Registry.Parsing.{ParseResult, parse-ParseResult}
use emulator_momo.Registry.Refines.{Agrees}
use emulator_momo.Registry.Walk.{value_at-Agrees, has_sub_key-Agrees, parse_root_block-Cached}

-- A question to a hive, and its answer.
pub data Question : Type 0 where
  ask_sub_key : List Bytes → Question
  ask_value : List Bytes → Bytes → Question

pub data Answer : Type 0 where
  sub_key_found : Bool → Answer
  value_found : Option HiveValue → Answer

-- The answer of a hive to a question, and to questions in turn. An exception does not end the questions.
unfoldable pub ask_hive : Bytes → Question → HiveKey → Result Answer × HiveKey
ask_hive file (ask_sub_key path) k =
    let (r, k') = has_sub_key file path k in (r >>= λ b. ok (sub_key_found b), k')
ask_hive file (ask_value path name) k =
    let (r, k') = value_at file path name k in (r >>= λ v. ok (value_found v), k')

unfoldable pub ask_all : Bytes → List Question → HiveKey → List (Result Answer)
unfolding ask_hive
ask_all file [] k = []
ask_all file (q ∷ qs) k = let (r, k') = ask_hive file q k in r ∷ ask_all file qs k'

-- The same from the file, which is read afresh for each question.
unfoldable pub read_answer : Bytes → Question → Place → Result Answer
read_answer file (ask_sub_key path) p = listed_sub_key file path p >>= λ b. ok (sub_key_found b)
read_answer file (ask_value path name) p = listed_value file path name p >>= λ v. ok (value_found v)

unfoldable pub read_answers : Bytes → List Question → Place → List (Result Answer)
unfolding read_answer
read_answers file [] p = []
read_answers file (q ∷ qs) p = read_answer file q p ∷ read_answers file qs p

-- The answers up to the first exception, with it.
unfoldable pub until_thrown : List (Result Answer) → List (Result Answer)
until_thrown [] = []
until_thrown (ok a ∷ rs) = ok a ∷ until_thrown rs
until_thrown (thrown ∷ rs) = thrown ∷ []

pub new_key-Cached : (file : Bytes) (p : Place) → Cached file (new_key p)
unfolding Cached
new_key-Cached file p = (refl, refl)

Agrees-map :
    {A B : Type 0} (file : Bytes) (p : Place) (f : A → B) (r : Result A) (a : Result A × HiveKey)
    → Agrees file p r a
    → Agrees file p (r >>= λ x. ok (f x)) (a.0 >>= λ x. ok (f x), a.1)
Agrees-map file p f (ok x) a h = (rw h.0 refl, h.1, h.2)
Agrees-map file p f thrown a h = rw h refl

ask_hive-Agrees :
    (file : Bytes) (q : Question) (k : HiveKey)
    → Cached file k
    → Agrees file (place_of k) (read_answer file q (place_of k)) (ask_hive file q k)
unfolding ask_hive read_answer
ask_hive-Agrees file (ask_sub_key path) k c =
    Agrees-map file (place_of k) sub_key_found _ _ (has_sub_key-Agrees file path k c)
ask_hive-Agrees file (ask_value path name) k c =
    Agrees-map file (place_of k) value_found _ _ (value_at-Agrees file path name k c)

-- One question, when the others are known to agree.
until_first :
    (file : Bytes) (qs : List Question) (p : Place) (r : Result Answer)
    (a : Result Answer × HiveKey)
    → Agrees file p r a
    → ((k : HiveKey)
        → Cached file k
        → until_thrown (ask_all file qs k) ≡ until_thrown (read_answers file qs (place_of k)))
    → until_thrown (a.0 ∷ ask_all file qs a.1) ≡ until_thrown (r ∷ read_answers file qs p)
unfolding until_thrown
until_first file qs p (ok x) a h others = rw (h.0, ← h.2) (ap (λ rs. ok x ∷ rs) (others a.1 h.1))
until_first file qs p thrown a h others = rw h refl

ask_all-read_answers :
    (file : Bytes) (qs : List Question) (k : HiveKey)
    → Cached file k
    → until_thrown (ask_all file qs k) ≡ until_thrown (read_answers file qs (place_of k))
unfolding ask_all read_answers
ask_all-read_answers file [] k c = refl
ask_all-read_answers file (q ∷ qs) k c =
    until_first file qs (place_of k) _ _ (ask_hive-Agrees file q k c) (ask_all-read_answers file qs)

-- A hive that opens answers any sequence of questions for sub keys and values, up to the first question that
-- throws, as readings of the file from the root on do that remember nothing: the same answers, and the
-- first exception at the same question.
pub hive-read_answers :
    (file : Bytes) (qs : List Question) (k : HiveKey)
    → parse_root_block file ≡ ok k
    → until_thrown (ask_all file qs k) ≡ until_thrown (read_answers file qs (place_of k))
hive-read_answers file qs k e = ask_all-read_answers file qs k (parse_root_block-Cached file k e)

-- Where a block of a key that was not parsed cannot be read, the first question for a value of it throws. The next
-- one is answered from the values in front of the first one that cannot be read, as if the key had no
-- others: it throws only where the data of the value cannot be read.
pub get_value_stopped :
    (file : Bytes) (first name : Bytes) (p : Place)
    → listing file p ≡ thrown
    → ((get_value file first (new_key p)).0 ≡ thrown)
      × ((get_value file name (get_value file first (new_key p)).1).0
          ≡ loaded_option file (last_named name (reached file p (rounds_int p.value_count) 0)))
unfolding get_value parse
get_value_stopped file first name p e =
    let stops : (parse file (new_key p)).0 ≡ thrown =
      subst (λ l. ParseResult file p l (parse file (new_key p))) e
        (parse-ParseResult file (new_key p) (new_key-Cached file p)) in
    let (ks, left) = parse-reached file p in
    let kept : (get_value file first (new_key p)).1 ≡ (parse file (new_key p)).1 =
      rw (get_value, stops) refl in
    (
      rw (get_value, stops) refl,
      subst
          (λ j.
            (get_value file name j).0
            ≡ loaded_option file (last_named name (reached file p (rounds_int p.value_count) 0)))
          (sym (kept ∙ left))
          (value_in-Fresh file name p (reached file p (rounds_int p.value_count) 0) ks
            (reached-Fresh file p (rounds_int p.value_count) 0)),
    )
