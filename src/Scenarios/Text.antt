-- ===== src/Scenarios/Text.antt =====
-- A splitting of names into labels, and a name with an escaped dot that
-- validator/internal/validator/nsec.go denies.
use sigillum_dnssec.Prelude.{
  ◌≡◌, refl, Bool, true, false, some, List, [], ◌∷◌, ◌++◌, arith, ok, ◌==◌, if◌then◌else◌,
}
use sigillum_dnssec.Names.{Label, Name, compare_bytes, compare_canonical_names}
use sigillum_dnssec.Names.Labels.{canonical_label_bytes}
use sigillum_dnssec.Names.Text.{is_plain_label, is_plain, IsSplit, decoded, plain-decoded}
use sigillum_dnssec.Sets.{name_order, number_order, has}
use sigillum_dnssec.Zone.{same_label, labels_within, take_labels}
use sigillum_dnssec.Zone.Chain.{Nsec}
use sigillum_dnssec.Denial.{
  nxdomain, canonically_between, text_between, common_suffix_labels, closest_encloser_from_nsec,
  next_closer_name, find_cover, nsec_ancestor_boundary, nsec_endpoint_below, nxdomain_covered,
  verify_nsec_nxdomain,
}
use sigillum_dnssec.Denial.Records.{IsSubDomainTest}

-- Whether the dot after the piece is escaped.
unfoldable pub is_open : Label → Bool
is_open [] = false
is_open (b ∷ []) = b == 92
is_open (b ∷ c ∷ piece) =
    let after = is_open piece in let next = is_open (c ∷ piece) in if b == 92 then after else next

-- The labels from the root down, with the one that is being joined.
unfoldable pub join_pieces : Label → Name → Name
unfolding is_open
join_pieces label [] = label ∷ []
join_pieces label (piece ∷ pieces) =
    let joined = join_pieces (piece ++ 46 ∷ label) pieces in
    let closed = join_pieces piece pieces in if is_open piece then joined else label ∷ closed

unfoldable pub split_text : Name → Name
unfolding join_pieces
split_text [] = []
split_text (piece ∷ pieces) = join_pieces piece pieces

plain_closed : (piece : Label) → is_plain_label piece ≡ true → is_open piece ≡ false
unfolding is_open is_plain_label
plain_closed [] h = refl
plain_closed (b ∷ []) h = ground (arith, h)
plain_closed (b ∷ c ∷ piece) h = ground (arith, h, plain_closed (c ∷ piece))

plain_joined :
    (label : Label) (pieces : Name)
    → is_plain pieces ≡ true
    → join_pieces label pieces ≡ label ∷ pieces
unfolding join_pieces is_plain
plain_joined label [] h = refl
plain_joined label (piece ∷ pieces) h =
    ground (arith, h, plain_closed piece, plain_joined piece pieces)

pub split_text-IsSplit : IsSplit split_text
unfolding IsSplit split_text is_plain
split_text-IsSplit [] h = refl
split_text-IsSplit (piece ∷ pieces) h = plain_joined piece pieces (ground (arith, h))

-- `dns.IsSubDomain`
abbrev pub below : Name → Name → Bool
below parent child = labels_within (decoded split_text child) (decoded split_text parent)

pub below-IsSubDomainTest : IsSubDomainTest below
unfolding IsSubDomainTest
below-IsSubDomainTest parent child p q =
    rw
      (
        plain-decoded split_text parent split_text-IsSplit p,
        plain-decoded split_text child split_text-IsSplit q,
      )
      refl

-- A zone that owns "e.", "*.e." and "b.e.", and the name "a\.b.e.".
abbrev chain : List Nsec
chain =
    record {
      owner = (101 ∷ []) ∷ [];
      next_domain = (101 ∷ []) ∷ (42 ∷ []) ∷ [];
      types = 2 ∷ 6 ∷ [];
    }
    ∷ record {
      owner = (101 ∷ []) ∷ (42 ∷ []) ∷ [];
      next_domain = (101 ∷ []) ∷ (98 ∷ []) ∷ [];
      types = 1 ∷ [];
    }
    ∷ record { owner = (101 ∷ []) ∷ (98 ∷ []) ∷ []; next_domain = (101 ∷ []) ∷ []; types = 1 ∷ [] }
    ∷ []

abbrev escaped_name : Name
escaped_name = (101 ∷ []) ∷ (98 ∷ []) ∷ (97 ∷ 92 ∷ []) ∷ []

-- The wildcard "*.e." answers for the name, which is denied all the same: its encloser is taken to be
-- "b.e.".
escaped_name_denied :
    verify_nsec_nxdomain split_text below escaped_name chain
    ≡ ok (record {
      proof_type = nxdomain;
      closest_encloser = some ((101 ∷ []) ∷ (98 ∷ []) ∷ []);
      next_closer = some escaped_name;
      opt_out = false;
    })
unfolding has name_order compare_canonical_names compare_bytes verify_nsec_nxdomain nxdomain_covered
    nsec_ancestor_boundary find_cover text_between canonically_between decoded split_text
    join_pieces is_open canonical_label_bytes nsec_endpoint_below closest_encloser_from_nsec
    next_closer_name common_suffix_labels take_labels labels_within same_label
escaped_name_denied = refl
