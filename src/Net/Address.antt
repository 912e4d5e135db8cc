-- ===== src/Net/Address.antt =====
-- `Display` of `IpAddr`, which the addresses of the local servers show.
use horizon_cast.Base.{
  ℕ, zero, suc, ◌+◌, ◌-◌, ◌/◌, ◌%◌, ◌^◌, Bool, List, [], ◌∷◌, ◌++◌, ltb, ◌==◌, if◌then◌else◌, take,
  drop,
}
use horizon_cast.Base.Text.{Text, text, decimal}
use horizon_cast.Discovery.Registry.{IpAddr, v4, v6}

-- The number's digit of weight `256 ^ k`.
abbrev pub octet : ℕ → ℕ → ℕ
octet n k = n / 256 ^ k % 256

unfoldable pub show_v4 : ℕ → Text
show_v4 n =
    decimal (octet n 3)
    ++ (b'.'
        ∷ (decimal (octet n 2) ++ (b'.' ∷ (decimal (octet n 1) ++ (b'.' ∷ decimal (octet n 0))))))

abbrev pub hex_digit : ℕ → ℕ
hex_digit d = if ltb d 10 then b'0' + d else b'a' + d - 10

-- The digits of a segment in base 16, without leading zeros.
unfoldable pub hex_onto : ℕ → ℕ → Text → Text
hex_onto zero n out = out
hex_onto (suc fuel) n out =
    let more = hex_onto fuel (n / 16) (hex_digit (n % 16) ∷ out) in
    if ltb n 16 then hex_digit n ∷ out else more

unfoldable pub show_segments : List ℕ → Text
unfolding hex_onto
show_segments [] = []
show_segments (s ∷ []) = hex_onto 4 s []
show_segments (s ∷ t ∷ r) = hex_onto 4 s [] ++ (b':' ∷ show_segments (t ∷ r))

abbrev pub segment : ℕ → ℕ → ℕ
segment n k = n / 65_536 ^ k % 65_536

abbrev pub segments : ℕ → List ℕ
segments n =
    segment n 7
    ∷ segment n 6
    ∷ segment n 5
    ∷ segment n 4
    ∷ segment n 3
    ∷ segment n 2
    ∷ segment n 1
    ∷ segment n 0
    ∷ []

pub record Span : Type 0 where
  pub at : ℕ
  pub len : ℕ

-- The longest run of zeros, and the first of several.
unfoldable pub longest_zeros : ℕ → Span → Span → List ℕ → Span
longest_zeros i longest current [] = longest
longest_zeros i longest current (s ∷ ss) =
    let current' =
      if s == 0
      then record { at = if current.len == 0 then i else current.at; len = current.len + 1 }
      else record { at = 0; len = 0 } in
    longest_zeros (i + 1) (if ltb longest.len current'.len then current' else longest) current' ss

abbrev pub no_zeros : Span
no_zeros = record { at = 0; len = 0 }

-- The segments, with two colons for the run of zeros if it is longer than one.
unfoldable pub show_groups : Span → List ℕ → Text
show_groups zeros ss =
    if ltb 1 zeros.len
    then show_segments (take zeros.at ss)
      ++ (text "::" ++ show_segments (drop (zeros.at + zeros.len) ss))
    else show_segments ss

abbrev pub is_mapped : ℕ → Bool
is_mapped n = n / 2 ^ 32 == 0xFFFF

unfoldable pub show_v6 : ℕ → Text
show_v6 n =
    if is_mapped n
    then text "::ffff:" ++ show_v4 (n % 2 ^ 32)
    else show_groups (longest_zeros 0 no_zeros no_zeros (segments n)) (segments n)

-- `to_string` of an address.
unfoldable pub show_addr : IpAddr → Text
unfolding show_v4 show_v6
show_addr (v4 n) = show_v4 n
show_addr (v6 n) = show_v6 n
