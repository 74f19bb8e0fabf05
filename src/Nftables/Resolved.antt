-- ===== src/Nftables/Resolved.antt =====
-- internal/nftables/resolved.go: the elements of the resolved sets. A command is a value in place of
-- its arguments, which `argv` writes out; the runs of `nft` are a function from the state of the
-- kernel. A time to live is in nanoseconds, as `time.Duration` is, and not negative.
use g0efilter.Prelude.{
  ℕ, ◌*◌, ◌/◌, Bool, Option, none, some, List, [], ◌∷◌, ◌++◌, ltb, if◌then◌else◌,
}
use g0efilter.Nftables.{Family, v4, v6}
use g0efilter.Text.{Bytes, codes, trim_space}
use g0efilter.Text.Number.{itoa}
use g0efilter.Nftables.Apply.{Addresses}

abbrev pub second : ℕ
second = 1000000000

abbrev pub min_resolved_ttl : ℕ
min_resolved_ttl = 60 * second

abbrev pub max_resolved_ttl : ℕ
max_resolved_ttl = 24 * 3600 * second

-- `clampTTL`
unfoldable pub clamp_ttl : ℕ → ℕ
clamp_ttl ttl =
    if ltb ttl min_resolved_ttl
    then min_resolved_ttl
    else if ltb max_resolved_ttl ttl
    then max_resolved_ttl
    else ttl

-- `add` and `delete`
pub data Verb : Type 0 where
  add delete : Verb

-- An address of a family, with the timeout in seconds that `add` gives it.
pub data ElementCommand : Type 0 where
  add_element : Family → Bytes → ℕ → ElementCommand
  delete_element : Family → Bytes → ElementCommand

-- `resolvedElementArgs`; `none` is `errInvalidResolvedIP`.
unfoldable pub resolved_element_args : Addresses → Verb → Bytes → ℕ → Option ElementCommand
resolved_element_args net verb ip ttl = elim (net.parse_ip (trim_space ip)) [
  | none ↦ none
  | some (family, element) ↦ some (elim verb [
    | add ↦ add_element family element (clamp_ttl ttl / second)
    | delete ↦ delete_element family element
  ])
]

abbrev family_args : Family → List Bytes
family_args v4 = codes "ip" ∷ codes "g0efilter_v4" ∷ codes "resolved_allow_v4" ∷ []
family_args v6 = codes "ip6" ∷ codes "g0efilter_v6" ∷ codes "resolved_allow_v6" ∷ []

abbrev braced : Bytes → List Bytes
braced element = (codes "{ " ++ element ++ codes " }") ∷ []

-- The arguments of `nft`, as `resolvedElementArgs` returns them.
unfoldable pub argv : ElementCommand → List Bytes
argv (add_element family address seconds) =
    (codes "add" ∷ codes "element" ∷ family_args family)
    ++ braced (address ++ codes " timeout " ++ itoa seconds ++ codes "s")
argv (delete_element family address) =
    (codes "delete" ∷ codes "element" ∷ family_args family) ++ braced address

pub data ResolvedError : Type 0 where
  invalid_ip : Bytes → ResolvedError
  nft_failed : ElementCommand → ResolvedError

module _ {K : Type 0} (run_nft : ElementCommand → K → Bool × K) (net : Addresses) where
  -- `addResolvedElement`: the error, and the kernel afterwards.
  unfoldable pub add_resolved_element : Bytes → ℕ → K → Option ResolvedError × K
  add_resolved_element ip ttl k = elim (resolved_element_args net add ip ttl) [
    | none ↦ (some (invalid_ip ip), k)
    | some add_args ↦
        let (added, k1) = run_nft add_args k in
        if added then (none, k1) else elim (resolved_element_args net delete ip 0) [
          | none ↦ (some (invalid_ip ip), k1)
          | some del_args ↦
              let (added_again, k2) = run_nft add_args (run_nft del_args k1).1 in
              (if added_again then none else some (nft_failed add_args), k2)
        ]
  ]

  abbrev collect : Option ResolvedError → List ResolvedError → List ResolvedError
  collect none errs = errs
  collect (some e) errs = e ∷ errs

  -- `AddResolvedIPs`: the joined errors, and the kernel afterwards.
  unfoldable pub add_resolved_ips : List Bytes → ℕ → K → List ResolvedError × K
  unfolding add_resolved_element
  add_resolved_ips [] ttl k = ([], k)
  add_resolved_ips (ip ∷ ips) ttl k =
      let (err, k1) = add_resolved_element ip ttl k in
      let (errs, k2) = add_resolved_ips ips ttl k1 in (collect err errs, k2)
