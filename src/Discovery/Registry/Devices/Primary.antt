-- ===== src/Discovery/Registry/Devices/Primary.antt =====
-- The primary address of a group: it is one of them, and none of them is better.
use mathlib.Core.List.{Memᴰ}
use mathlib.Core.List.Memᴰ
use horizon_cast.Base.{
  refl, ◌⊎◌, ◌/◌, ◌^◌, ◌≤◌, bit_and, ◌==◌, ◌≡◌, ◌≢◌, sym, subst, ap, ◌∙◌, true, false, some, List,
  [], ◌∷◌, if◌then◌else◌, ◌>>=◌, arith, Bool-cases, Option-cases, inl, inr, All,
}
use horizon_cast.Base.Text.{Text}
use horizon_cast.Discovery.Registry.{IpAddr, v4, v6, Entries, entry_at}
use horizon_cast.Discovery.Registry.Devices.{
  Device, device_of, address_rank, addr_before, sort_addrs, preferred, primary_of, entries_of,
  merge_group,
}

preferred_trans :
    (a b c : IpAddr) → preferred a b ≡ true → preferred b c ≡ true → preferred a c ≡ true
unfolding addr_before
preferred_trans (v4 a) (v4 b) (v4 c) h g = ground arith
preferred_trans (v4 a) (v4 b) (v6 c) h g = ground arith
preferred_trans (v4 a) (v6 b) (v4 c) h g = ground arith
preferred_trans (v4 a) (v6 b) (v6 c) h g = ground arith
preferred_trans (v6 a) (v4 b) (v4 c) h g = ground arith
preferred_trans (v6 a) (v4 b) (v6 c) h g = ground arith
preferred_trans (v6 a) (v6 b) (v4 c) h g = ground arith
preferred_trans (v6 a) (v6 b) (v6 c) h g = ground arith

-- What is preferred to the third, and the second is not, is preferred to the second.
preferred_below :
    (a b c : IpAddr) → preferred a c ≡ true → preferred b c ≡ false → preferred a b ≡ true
unfolding addr_before
preferred_below (v4 a) (v4 b) (v4 c) h g = ground arith
preferred_below (v4 a) (v4 b) (v6 c) h g = ground arith
preferred_below (v4 a) (v6 b) (v4 c) h g = ground arith
preferred_below (v4 a) (v6 b) (v6 c) h g = ground arith
preferred_below (v6 a) (v4 b) (v4 c) h g = ground arith
preferred_below (v6 a) (v4 b) (v6 c) h g = ground arith
preferred_below (v6 a) (v6 b) (v4 c) h g = ground arith
preferred_below (v6 a) (v6 b) (v6 c) h g = ground arith

preferred_irrefl : (a : IpAddr) → preferred a a ≡ false
unfolding addr_before
preferred_irrefl (v4 a) = ground arith
preferred_irrefl (v6 a) = ground arith

-- None of the addresses is preferred to `p`.
abbrev pub IsBest : IpAddr → List IpAddr → Type 0
IsBest p = All (λ a. preferred a p ≡ false)

true-false : true ≢ false
true-false h = cc

preferred_over :
    (a b p : IpAddr) → preferred a b ≡ true → preferred a p ≡ false → preferred b p ≡ false
preferred_over a b p h g = elim (Bool-cases (preferred b p)) [
  | inl better ↦ absurd (true-false (sym (preferred_trans a b p h better) ∙ g))
  | inr worse ↦ worse
]

preferred_none :
    (a b p : IpAddr) → preferred a b ≡ false → preferred b p ≡ false → preferred a p ≡ false
preferred_none a b p h g = elim (Bool-cases (preferred a p)) [
  | inl better ↦ absurd (true-false (sym (preferred_below a b p better g) ∙ h))
  | inr worse ↦ worse
]

module _ (best a : IpAddr) (bs : List IpAddr) where
  primary_of_better : preferred a best ≡ true → primary_of best (a ∷ bs) ≡ primary_of a bs
  primary_of_better better =
      unfold primary_of in ap (λ b. primary_of (if b then a else best) bs) better

  primary_of_worse : preferred a best ≡ false → primary_of best (a ∷ bs) ≡ primary_of best bs
  primary_of_worse worse =
      unfold primary_of in ap (λ b. primary_of (if b then a else best) bs) worse

primary_of-IsBest :
    (best : IpAddr) (addrs : List IpAddr) → IsBest (primary_of best addrs) (best ∷ addrs)
primary_of-IsBest best [] = (unfold primary_of in preferred_irrefl best, tt)
primary_of-IsBest best (a ∷ bs) = elim (Bool-cases (preferred a best)) [
  | inl better ↦
      let (h, hs) = primary_of-IsBest a bs in
      subst (λ p. IsBest p (best ∷ a ∷ bs)) (sym (primary_of_better best a bs better))
        (preferred_over a best (primary_of a bs) better h, (h, hs))
  | inr worse ↦
      let (h, hs) = primary_of-IsBest best bs in
      subst (λ p. IsBest p (best ∷ a ∷ bs)) (sym (primary_of_worse best a bs worse))
        (h, (preferred_none a best (primary_of best bs) worse h, hs))
]

primary_of-member :
    (best : IpAddr) (addrs : List IpAddr) → Memᴰ (primary_of best addrs) (best ∷ addrs)
unfolding primary_of
primary_of-member best [] = Memᴰ.head refl
primary_of-member best (a ∷ bs) = elim (Bool-cases (preferred a best)) [
  | inl better ↦
      subst (λ p. Memᴰ p (best ∷ a ∷ bs)) (sym (primary_of_better best a bs better))
        (Memᴰ.tail (primary_of-member a bs))
  | inr worse ↦
      subst (λ p. Memᴰ p (best ∷ a ∷ bs)) (sym (primary_of_worse best a bs worse))
        (elim (Memᴰ.cases_cons (primary_of-member best bs)) [
          | inl e ↦ Memᴰ.head e
          | inr m ↦ Memᴰ.tail (Memᴰ.tail m)
        ])
]

-- 127.0.0.0/8, and ::1.
abbrev pub IsLoopback : IpAddr → Type 0
IsLoopback (v4 n) = n / 2 ^ 24 ≡ 127
IsLoopback (v6 n) = n ≡ 1

abbrev pub IsV6 : IpAddr → Type 0
IsV6 (v4 n) = ⊥
IsV6 (v6 n) = Unit {0}

-- fe80::/10, by the mask on the first 16 bits.
abbrev pub IsLinkLocal : IpAddr → Type 0
IsLinkLocal (v4 n) = ⊥
IsLinkLocal (v6 n) = bit_and (n / 2 ^ 112) 0xFFC0 ≡ 0xFE80

-- Two IPv4 addresses that are not loopback, in their order.
abbrev pub InOrder : IpAddr → IpAddr → Type 0
InOrder (v4 m) (v4 n) = m / 2 ^ 24 ≢ 127 → n / 2 ^ 24 ≢ 127 → m ≤ n
InOrder _ _ = Unit {0}

-- `a` is no better than `p` to reach a device by.
pub record IsNoBetter (p a : IpAddr) : Type 0 where
  pub loopback : IsLoopback p → IsLoopback a
  pub version : IsV6 p → IsLoopback a ⊎ IsV6 a
  pub link_local : IsLinkLocal p → IsLoopback a ⊎ IsLinkLocal a
  pub order : InOrder p a

preferred-IsNoBetter : (p a : IpAddr) → preferred a p ≡ false → IsNoBetter p a
unfolding address_rank addr_before
preferred-IsNoBetter (v4 m) (v4 n) h = record {
  loopback = λ l. ground arith;
  version = λ v. absurd v;
  link_local = λ v. absurd v;
  order = λ l l'. ground arith;
}
preferred-IsNoBetter (v4 m) (v6 n) h = record {
  loopback = λ l. ground arith;
  version = λ v. absurd v;
  link_local = λ v. absurd v;
  order = tt;
}
preferred-IsNoBetter (v6 m) (v4 n) h = record {
  loopback = λ l. ground arith;
  version = λ v. inl (ground arith);
  link_local = λ l. inl (ground arith);
  order = tt;
}
preferred-IsNoBetter (v6 m) (v6 n) h = record {
  loopback = λ l. ground arith;
  version = λ v. inr tt;
  link_local = λ l. elim (Bool-cases (n == 1)) [
    | inl same_loopback ↦ inl (ground arith)
    | inr differs ↦ inr (ground arith)
  ];
  order = tt;
}

IsBest-IsNoBetter : (p : IpAddr) (g : List IpAddr) → IsBest p g → All (IsNoBetter p) g
IsBest-IsNoBetter p [] h = tt
IsBest-IsNoBetter p (a ∷ g) (h, hs) = (preferred-IsNoBetter p a h, IsBest-IsNoBetter p g hs)

-- The address of a group's device is one of the group's, and none of them is better: if it is a
-- loopback address, then so are all; if it is an IPv6 address, then all others but for loopback are;
-- if it is link-local, then so are all but for loopback; and of IPv4 addresses that are not loopback
-- it is the least.
pub merge_group-IsNoBetter :
    (show : IpAddr → Text) (es : Entries) (g : List IpAddr) (d : Device)
    → merge_group show es g ≡ some d
    → Memᴰ d.address g × All (IsNoBetter d.address) g
unfolding merge_group
merge_group-IsNoBetter show es [] d h = absurd (ground arith)
merge_group-IsNoBetter show es (a ∷ bs) d h = elim (Option-cases (entry_at (primary_of a bs) es)) [
  | inl bad ↦ absurd (ground (arith, bad))
  | inr (main, there) ↦ elim (Option-cases (entries_of es (sort_addrs (a ∷ bs)))) [
    | inl bad ↦ absurd (ground (arith, bad))
    | inr (sorted, went) ↦
        let made : some (device_of show (primary_of a bs) main sorted) ≡ some d =
          rw (there, ◌>>=◌, went) at h in
        let e : device_of show (primary_of a bs) main sorted ≡ d = cc in
        subst (λ d. Memᴰ d.address (a ∷ bs) × All (IsNoBetter d.address) (a ∷ bs)) e
          (
            primary_of-member a bs,
            IsBest-IsNoBetter (primary_of a bs) (a ∷ bs) (primary_of-IsBest a bs),
          )
  ]
]
