-- ===== src/Net/Urls.antt =====
-- The URL of a local server, as a client reads its authority after RFC 3986: a host in brackets, or
-- one without a colon, then a colon and the port.
use horizon_cast.Base.{
  ℕ, zero, suc, ◌+◌, take, drop, ◌/◌, ◌%◌, ◌^◌, ◌≤◌, ◌<◌, ◌≡◌, ◌≢◌, refl, sym, ap, ◌∙◌, Option,
  none, some, List, [], ◌∷◌, ◌++◌, arith, All, All-append, append_assoc, inl, inr, Bool-cases,
  Option-cases, ◌>>=◌, if◌then◌else◌, ◌==◌, ltb,
}
use horizon_cast.Base.Text.{
  Text, text, decimal, strip_prefix, split_once, first_part, parse_u16, max_u16,
}
use horizon_cast.Base.Text.Cut.{Lacks, strip_prefix-append, split_once-append, split_once_sound}
use horizon_cast.Base.Text.Decimal.{decimal-IsDigit, parse_unsigned-decimal, IsDigit}
use horizon_cast.Discovery.Registry.{v4, v6}
use horizon_cast.Net.Address.{
  Span, segment, show_groups, is_mapped, hex_onto, hex_digit, no_zeros, longest_zeros, show_addr,
  show_v4, show_v6, octet, show_segments, segments,
}
use horizon_cast.Net.Listener.{server_url}

abbrev port_of : Text → Text → Option (Text × ℕ)
port_of host p = parse_u16 p >>= λ n. some (host, n)

unfoldable pub read_authority : Text → Option (Text × ℕ)
read_authority [] = none
read_authority (c ∷ s) =
    if c == b'['
    then (split_once b']' s >>= λ (host, rest).
        strip_prefix (text ":") rest >>= λ p. port_of host p)
    else (split_once b':' (c ∷ s) >>= λ (host, p). port_of host p)

-- The host and the port of an `http` URL.
pub read_server : Text → Option (Text × ℕ)
read_server url =
    strip_prefix (text "http://") url >>= λ rest. read_authority (first_part b'/' rest)

-- The characters of a dotted address.
abbrev IsDotted : ℕ → Type 0
IsDotted c = (b'.' ≤ c) × (c ≤ b'9') × (c ≢ b'/')

digits-IsDotted : (s : Text) → All IsDigit s → All IsDotted s
digits-IsDotted [] h = tt
digits-IsDotted (c ∷ s) h = (omega arith, digits-IsDotted s h.1)

decimal-IsDotted : (n : ℕ) → All IsDotted (decimal n)
decimal-IsDotted n = digits-IsDotted (decimal n) (decimal-IsDigit n)

show_v4-IsDotted : (n : ℕ) → All IsDotted (show_v4 n)
unfolding show_v4
show_v4-IsDotted n = All-append IsDotted (decimal (octet n 3)) _ (decimal-IsDotted (octet n 3)) (
  omega arith,
  All-append IsDotted (decimal (octet n 2)) _ (decimal-IsDotted (octet n 2)) (
    omega arith,
    All-append IsDotted (decimal (octet n 1)) _ (decimal-IsDotted (octet n 1))
        (omega arith, decimal-IsDotted (octet n 0)),
  ),
)

All-weaken_colon : (s : Text) → All IsDotted s → Lacks b':' s
All-weaken_colon [] h = tt
All-weaken_colon (c ∷ s) h = (omega arith, All-weaken_colon s h.1)

first_part-append : (sep : ℕ) (l r : Text) → Lacks sep l → first_part sep (l ++ sep ∷ r) ≡ l
unfolding first_part
first_part-append sep [] r h = ground arith
first_part-append sep (c ∷ l) r h = ground (arith, first_part-append sep l r h.1)

-- A dotted host before a colon is read to that colon.
read_authority_dotted :
    (host p : Text)
    → All IsDotted host
    → host ≢ []
    → read_authority (host ++ b':' ∷ p) ≡ port_of host p
unfolding read_authority
read_authority_dotted [] p h ne = absurd (ne refl)
read_authority_dotted (c ∷ s) p h ne =
    ground (arith, split_once-append b':' (c ∷ s) p (All-weaken_colon (c ∷ s) h))

append-ne-nil : (s t : Text) → t ≢ [] → s ++ t ≢ []
append-ne-nil [] t ne = ne
append-ne-nil (c ∷ s) t ne = λ e. cc

show_v4-ne-nil : (n : ℕ) → show_v4 n ≢ []
unfolding show_v4
show_v4-ne-nil n = append-ne-nil (decimal (octet n 3)) _ (λ e. cc)

read_server_behind :
    (rest : Text) → read_server (text "http://" ++ rest) ≡ read_authority (first_part b'/' rest)
unfolding read_server
read_server_behind rest =
    ap (λ (o : Option Text). o >>= λ (r : Text). read_authority (first_part b'/' r))
      (strip_prefix-append (text "http://") rest)

-- What no part of an authority has before its colon, and a bracket.
abbrev IsPlain : ℕ → Type 0
IsPlain c = (c ≢ b'[') × (c ≢ b'/')

hex_onto-IsPlain : (fuel n : ℕ) (out : Text) → All IsPlain out → All IsPlain (hex_onto fuel n out)
unfolding hex_onto
hex_onto-IsPlain zero n out h = h
hex_onto-IsPlain (suc fuel) n out h =
    ground (arith, hex_onto-IsPlain fuel (n / 16) (hex_digit (n % 16) ∷ out))

show_segments-IsPlain : (ss : List ℕ) → All IsPlain (show_segments ss)
unfolding show_segments
show_segments-IsPlain [] = tt
show_segments-IsPlain (s ∷ []) = hex_onto-IsPlain 4 s [] tt
show_segments-IsPlain (s ∷ t ∷ r) =
    All-append IsPlain (hex_onto 4 s []) _ (hex_onto-IsPlain 4 s [] tt)
      (omega arith, show_segments-IsPlain (t ∷ r))

All-weaken-IsPlain : (s : Text) → All IsDotted s → All IsPlain s
All-weaken-IsPlain [] h = tt
All-weaken-IsPlain (c ∷ s) h = (omega arith, All-weaken-IsPlain s h.1)

show_groups-IsPlain : (zeros : Span) (ss : List ℕ) → All IsPlain (show_groups zeros ss)
unfolding show_groups
show_groups-IsPlain zeros ss = elim (Bool-cases (ltb 1 zeros.len)) [
  | inr plain ↦ rw plain (show_segments-IsPlain ss)
  | inl run ↦ rw run (
      All-append IsPlain (show_segments (take zeros.at ss)) _
        (show_segments-IsPlain (take zeros.at ss))
        (All-append IsPlain (text "::") _ (omega arith)
          (show_segments-IsPlain (drop (zeros.at + zeros.len) ss))))
]

show_v6-IsPlain : (n : ℕ) → All IsPlain (show_v6 n)
unfolding show_v6
show_v6-IsPlain n = elim (Bool-cases (is_mapped n)) [
  | inl mapped ↦ rw mapped (
      All-append IsPlain (text "::ffff:") _ (omega arith)
        (All-weaken-IsPlain (show_v4 (n % 2 ^ 32)) (show_v4-IsDotted (n % 2 ^ 32))))
  | inr other ↦
      rw other (show_groups-IsPlain (longest_zeros 0 no_zeros no_zeros (segments n)) (segments n))
]

not-Lacks-append : (l r : Text) → ¬ Lacks b':' (l ++ b':' ∷ r)
not-Lacks-append [] r h = h.0 refl
not-Lacks-append (c ∷ l) r h = not-Lacks-append l r h.1

show_groups_colon :
    (zeros : Span) (s t : ℕ) (ss : List ℕ) → ¬ Lacks b':' (show_groups zeros (s ∷ t ∷ ss))
unfolding show_groups show_segments
show_groups_colon zeros s t ss h = elim (Bool-cases (ltb 1 zeros.len)) [
  | inr plain ↦ not-Lacks-append (hex_onto 4 s []) _ (rw plain at h)
  | inl run ↦ not-Lacks-append (show_segments (take zeros.at (s ∷ t ∷ ss))) _ (rw run at h)
]

show_v6_colon : (n : ℕ) → ¬ Lacks b':' (show_v6 n)
unfolding show_v6
show_v6_colon n h = elim (Bool-cases (is_mapped n)) [
  | inl mapped ↦ (rw mapped at h).0 refl
  | inr other ↦
      show_groups_colon (longest_zeros 0 no_zeros no_zeros (segments n)) (segment n 7) (segment n 6)
        _ (rw other at h)
]

-- An authority that does not begin with a bracket has no colon in its host.
read_authority_host :
    (a host : Text) (port : ℕ)
    → All IsPlain a
    → read_authority a ≡ some (host, port)
    → Lacks b':' host
unfolding read_authority
read_authority_host [] host port plain e = cc
read_authority_host (c ∷ s) host port plain e = elim (Option-cases (split_once b':' (c ∷ s))) [
  | inl missing ↦ absurd (ground arith)
  | inr ((l, r), cut) ↦
      let sound = split_once_sound b':' (c ∷ s) l r cut in
      let same_host : host ≡ l = ground arith in rw same_host sound.1
]

plain_slash : (s : Text) → All IsPlain s → Lacks b'/' s
plain_slash [] h = tt
plain_slash (c ∷ s) h = (h.0.1, plain_slash s h.1)

-- The URL of a server is read as the host that it shows, a colon, and the port.
read_server_shown :
    (host name : Text) (port : ℕ)
    → All IsPlain host
    → (read_server (text "http://" ++ (host ++ (b':' ∷ (decimal port ++ (b'/' ∷ name)))))
        ≡ read_authority (host ++ b':' ∷ decimal port))
      × All IsPlain (host ++ b':' ∷ decimal port)
read_server_shown host name port plain =
    let authority = host ++ b':' ∷ decimal port in
    let rest = host ++ (b':' ∷ (decimal port ++ (b'/' ∷ name))) in
    let all : All IsPlain authority =
      All-append IsPlain host (b':' ∷ decimal port) plain
        (omega arith, All-weaken-IsPlain (decimal port) (decimal-IsDotted port)) in
    let cut : first_part b'/' rest ≡ authority =
      ap (first_part b'/') (sym (append_assoc host (b':' ∷ decimal port) (b'/' ∷ name)))
      ∙ first_part-append b'/' authority name (plain_slash authority all) in
    (read_server_behind rest ∙ ap read_authority cut, all)

-- A client reads from the URL of a server on an IPv4 address that address and the port.
pub read_server-server_url :
    (n port : ℕ) (name : Text)
    → port < 2 ^ 16
    → read_server (server_url (v4 n) port name) ≡ some (show_addr (v4 n), port)
unfolding server_url show_addr
read_server-server_url n port name h =
    let dotted = show_v4-IsDotted n in
    (read_server_shown (show_v4 n) name port (All-weaken-IsPlain (show_v4 n) dotted)).0
    ∙ read_authority_dotted (show_v4 n) (decimal port) dotted (show_v4-ne-nil n)
    ∙ ap (λ (o : Option ℕ). o >>= λ (k : ℕ). some (show_v4 n, k))
        (parse_unsigned-decimal max_u16 port (omega arith))

-- From the URL of a server on an IPv6 address no client reads that address, with whatever port: the
-- address has colons, and the URL has no brackets around it.
pub read_server-ne-show_addr :
    (n port p : ℕ) (name : Text)
    → read_server (server_url (v6 n) port name) ≢ some (show_addr (v6 n), p)
unfolding server_url show_addr
read_server-ne-show_addr n port p name = λ e.
    let shown = read_server_shown (show_v6 n) name port (show_v6-IsPlain n) in
    show_v6_colon n (read_authority_host _ (show_v6 n) p shown.1 (sym shown.0 ∙ e))
