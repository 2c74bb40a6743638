-- ===== src/Handles/Value.antt =====
-- src/windows-emulator/handles.hpp: a handle as a 64-bit word and as bit fields.
use emulator_momo.Common.{
  ℕ, ◌+◌, ◌*◌, ◌/◌, ◌%◌, ◌^◌, ◌<◌, ◌≡◌, Bool, true, false, arith, u64_mod, ◌==◌,
}

-- `handle_types::type`
pub data HandleType : Type 0 where
  reserved file device event section symlink directory semaphore port thread registry mutant token :
      HandleType

-- The number of an enumerator.
unfoldable pub type_code : HandleType → ℕ
type_code reserved = 0
type_code file = 1
type_code device = 2
type_code event = 3
type_code section = 4
type_code symlink = 5
type_code directory = 6
type_code semaphore = 7
type_code port = 8
type_code thread = 9
type_code registry = 10
type_code mutant = 11
type_code token = 12

-- The fields from the lowest bit up: 32, 16, 14, 1 and 1 bits.
pub record HandleValue : Type 0 where
  pub id : ℕ
  pub kind : ℕ
  pub padding : ℕ
  pub is_system : Bool
  pub is_pseudo : Bool

abbrev pub bit : Bool → ℕ
bit true = 1
bit false = 0

-- The word that holds the fields: `handle::value` read as `handle::bits`.
unfoldable pub to_bits : HandleValue → ℕ
to_bits v =
    v.id
    + v.kind * 2 ^ 32
    + v.padding * 2 ^ 48
    + bit v.is_system * 2 ^ 62
    + bit v.is_pseudo * 2 ^ 63

unfoldable pub get_handle_value : ℕ → HandleValue
get_handle_value h = record {
  id = h % 2 ^ 32;
  kind = h / 2 ^ 32 % 2 ^ 16;
  padding = h / 2 ^ 48 % 2 ^ 14;
  is_system = h / 2 ^ 62 % 2 == 1;
  is_pseudo = h / 2 ^ 63 % 2 == 1;
}

unfoldable pub make_handle : ℕ → HandleType → Bool → ℕ
make_handle id kind is_pseudo = to_bits (record {
  id = id;
  kind = type_code kind;
  padding = 0;
  is_system = false;
  is_pseudo = is_pseudo;
})

unfoldable pub make_pseudo_handle : ℕ → HandleType → ℕ
make_pseudo_handle id kind = make_handle id kind true

abbrev pub current_process : ℕ
current_process = 0xffffffffffffffff

abbrev pub current_thread : ℕ
current_thread = 0xfffffffffffffffe

-- The fields fit their widths.
abbrev pub Fits : HandleValue → Type 0
Fits v = (v.id < 2 ^ 32) × (v.kind < 2 ^ 16) × (v.padding < 2 ^ 14)

pub type_code-lt : (t : HandleType) → type_code t < 13
unfolding type_code
type_code-lt reserved = omega arith
type_code-lt file = omega arith
type_code-lt device = omega arith
type_code-lt event = omega arith
type_code-lt section = omega arith
type_code-lt symlink = omega arith
type_code-lt directory = omega arith
type_code-lt semaphore = omega arith
type_code-lt port = omega arith
type_code-lt thread = omega arith
type_code-lt registry = omega arith
type_code-lt mutant = omega arith
type_code-lt token = omega arith

-- Fields that fit come back from the word, and a 64-bit word comes back from its fields.
pub handle_round_trip :
    ((v : HandleValue) → Fits v → (get_handle_value (to_bits v) ≡ v) × (to_bits v < u64_mod))
    × ((h : ℕ) → h < u64_mod → to_bits (get_handle_value h) ≡ h)
unfolding get_handle_value to_bits
handle_round_trip = (λ v f. (ground arith, ground arith), λ h lt. ground arith)

pub get_handle_value-make_handle :
    (id : ℕ) (t : HandleType) (p : Bool)
    → id < 2 ^ 32
    → get_handle_value (make_handle id t p)
      ≡ record { id = id; kind = type_code t; padding = 0; is_system = false; is_pseudo = p }
unfolding make_handle
get_handle_value-make_handle id t p h =
    (handle_round_trip.0 _ (h, omega (arith, type_code-lt t), omega arith)).0
