-- ===== src/Nsec3.antt =====
-- NSEC3 records as the validator groups them (validator/internal/validator/nsec.go). A salt and a
-- hash are texts, given as the list of their bytes, a hash in upper case; SHA-1 and the base32hex
-- encoding are parameters, and so is `dns.SplitDomainName`. Names are texts as in Denial, and are
-- cut into labels for their wire form only. The texts of errors and of ignored records are left
-- out.
pub mod Chains
pub mod Proofs
pub mod Bounds
pub mod Hashes
pub mod Sound
pub mod Wildcard
use Prim.Native.Nat.{Ordering}
use Prim.Native.Nat.Ordering.{lt, eq, gt}
use sigillum_dnssec.Prelude.{
  ℕ, zero, suc, ◌+◌, ◌-◌, ◌*◌, ◌/◌, ◌%◌, Bool, true, false, ◌&&◌, ◌||◌, not, Option, none, some,
  List, [], ◌∷◌, ◌++◌, Result, ok, err, length, leb, ltb, ◌==◌, keep_if, if◌then◌else◌,
}
use sigillum_dnssec.Names.{Label, Name, compare_bytes}
use sigillum_dnssec.Names.Text.{decoded}
use sigillum_dnssec.Sets.{label_order, same}
use sigillum_dnssec.Denial.{is_lt, is_gt}

-- NSEC3HashSHA1 and NSEC3MaxRecommendedIterations
abbrev pub nsec3_hash_sha1 : ℕ
nsec3_hash_sha1 = 1

abbrev pub nsec3_max_iterations : ℕ
nsec3_max_iterations = 100

pub record Nsec3 : Type 0 where
  pub hashed_owner : Label
  pub algorithm : ℕ
  pub flags : ℕ
  pub iterations : ℕ
  pub salt : Label
  pub next_hashed : Label
  pub types : List ℕ

pub data Nsec3Error : Type 0 where
  too_many_iterations : ℕ → Nsec3Error
  unsupported_algorithm : Nsec3Error
  invalid_salt : Nsec3Error
  mixed_chains : Nsec3Error
  no_usable_records : Nsec3Error
  name_matched : Nsec3Error
  no_encloser : Nsec3Error
  dname_encloser : Nsec3Error
  delegation_encloser : Nsec3Error
  closer_not_covered : Nsec3Error
  wildcard_matched : Nsec3Error
  wildcard_not_covered : Nsec3Error
  wildcard_not_matched : Nsec3Error
  bitmap_refused : Nsec3Error
  nothing_proven : Nsec3Error

abbrev pub to_upper : ℕ → ℕ
to_upper b = if leb 97 b && leb b 122 then b - 32 else b

unfoldable pub upper : Label → Label
upper [] = []
upper (b ∷ text) = to_upper b ∷ upper text

abbrev pub is_space : ℕ → Bool
is_space b = b == 32 || (leb 9 b && leb b 13)

unfoldable pub trim_left : Label → Label
trim_left [] = []
trim_left (b ∷ text) = let rest = trim_left text in if is_space b then rest else b ∷ text

unfoldable pub trim_right : Label → Label
trim_right [] = []
trim_right (b ∷ text) =
    let rest = trim_right text in
    elim rest [ [] ↦ if is_space b then [] else b ∷ [] | c ∷ later ↦ b ∷ c ∷ later ]

unfoldable pub normalize_salt : Label → Label
unfolding upper trim_left trim_right
normalize_salt salt =
    let s = upper (trim_right (trim_left salt)) in if same s (45 ∷ []) then [] else s

-- The value of a digit, which `hexDecode` reads in lower case.
unfoldable pub hex_digit : ℕ → Option ℕ
hex_digit c =
    if leb 48 c && leb c 57
    then some (c - 48)
    else if leb 65 c && leb c 70
    then some (c - 55)
    else if leb 97 c && leb c 102
    then some (c - 87)
    else none

abbrev pub hex_pair : Option ℕ → Option ℕ → Option (List ℕ) → Option (List ℕ)
hex_pair (some a) (some b) (some rest) = some ((a * 16 + b) ∷ rest)
hex_pair none b rest = none
hex_pair (some a) none rest = none
hex_pair (some a) (some b) none = none

unfoldable pub hex_decode : Label → Option (List ℕ)
unfolding hex_digit
hex_decode [] = some []
hex_decode (a ∷ []) = if a == 45 then some [] else none
hex_decode (a ∷ b ∷ text) = hex_pair (hex_digit a) (hex_digit b) (hex_decode text)

-- The labels in wire order, the last one first.
unfoldable pub wire_labels : Name → List ℕ
wire_labels [] = []
wire_labels (label ∷ name) = wire_labels name ++ (length label % 256) ∷ label

-- The wire form of a name that is given by its labels.
unfoldable pub wire_name : Name → List ℕ
unfolding wire_labels
wire_name name = wire_labels name ++ 0 ∷ []

unfoldable pub to_wire_format : (Name → Name) → Name → List ℕ
unfolding wire_name decoded
to_wire_format split text = wire_name (decoded split text)

module _ (sha1 : List ℕ → List ℕ) (encode : List ℕ → Label) where
  unfoldable pub iterate_hash : List ℕ → ℕ → List ℕ → List ℕ
  iterate_hash salt zero digest = digest
  iterate_hash salt (suc iterations) digest = iterate_hash salt iterations (sha1 (digest ++ salt))

  -- The part of `computeNSEC3Hash` after the wire form.
  unfoldable pub hash_wire : List ℕ → List ℕ → ℕ → Label
  unfolding iterate_hash
  hash_wire wire salt iterations =
      upper (encode (iterate_hash salt iterations (sha1 (wire ++ salt))))

  unfoldable pub compute_nsec3_hash : (Name → Name) → Name → List ℕ → ℕ → Label
  unfolding hash_wire to_wire_format
  compute_nsec3_hash split name salt iterations =
      hash_wire (to_wire_format split name) salt iterations

unfoldable pub nsec3_unknown_flags : Nsec3 → Bool
nsec3_unknown_flags r = not (r.flags / 2 == 0)

unfoldable pub is_opt_out : Nsec3 → Bool
is_opt_out r = r.flags % 2 == 1

unfoldable pub nsec3_iterations_over_cap : List Nsec3 → Option ℕ
nsec3_iterations_over_cap [] = none
nsec3_iterations_over_cap (r ∷ records) =
    let rest = nsec3_iterations_over_cap records in
    if ltb nsec3_max_iterations r.iterations then some r.iterations else rest

unfoldable pub hash_between : Label → Label → Label → Bool
hash_between hash start end =
    let after = is_gt (compare_bytes hash start) in
    let before = is_lt (compare_bytes hash end) in
    elim (compare_bytes start end) [
      | lt ↦ after && before
      | gt ↦ after || before
      | eq ↦ not (same hash start)
    ]
