-- ===== src/Proxmox/ProviderId/RoundTrip.antt =====
-- What `parseProviderID` accepts, and that it reads back what `newProviderID` wrote.
use Prim.Native.String.{◌++◌ as ◌<>◌, count}
use text.Mathlib.TextLemmas.{length-append}
use xenonite.Base.{
  String, ◌≡◌, ◌≢◌, refl, ap, subst, ◌∙◌, ◌==◌, eq_iff, ◌||◌, Option, none, some, arith, Bool-cases,
  inl, inr,
}
use xenonite.Base.Int.{ℤ}
use xenonite.Exec.{Result, ok}
use xenonite.Go.Strings.{trim_prefix, cut_slash}
use xenonite.Go.Strings.Laws.{
  NoSlash, trim_prefix-append, trim_prefix_sound, cut_slash-append, Cuts, cut_slash-Cuts,
}
use xenonite.Go.Strconv.{print_int, atoi}
use xenonite.Go.Strconv.Laws.{IsInt64, atoi-print_int, atoi-IsInt64}
use xenonite.Proxmox.ProviderId.{
  provider_id_scheme, new_provider_id, parse_provider_id, parse_parts, parse_vmid,
}

scheme_ne : (s : String) → s ≢ provider_id_scheme <> s
scheme_ne s e = omega (arith, ap count e, length-append provider_id_scheme s)

pub new_provider_id-ne : (node : String) (vmid : ℤ) → new_provider_id node vmid ≢ ""
unfolding new_provider_id
new_provider_id-ne node vmid e =
    omega (arith, ap count e, length-append provider_id_scheme (node <> ("/" <> print_int vmid)))

-- The test for the prefix passes just for texts behind the scheme.
print_int-ne : (k : ℤ) → IsInt64 k → print_int k ≢ ""
unfolding atoi
print_int-ne k h e = cc (atoi-print_int k h)

abbrev rest_of : String → ℤ → String
rest_of node vmid = node <> ("/" <> print_int vmid)

parse_rest :
    (id node : String) (vmid : ℤ)
    → node ≢ ""
    → NoSlash node
    → IsInt64 vmid
    → parse_parts id (cut_slash (rest_of node vmid)) ≡ ok (node, vmid)
unfolding parse_parts
parse_rest id node vmid ne ns h =
    rw (cut_slash-append node (print_int vmid) ns, atoi-print_int vmid h)
      (ground (arith, eq_iff node "", eq_iff (print_int vmid) "", print_int-ne vmid h))

-- For a node name that is not empty and has no slash, and a VM id of 64 bits, the providerID that
-- `newProviderID` prints is parsed to that name and that id.
pub parse-new :
    (node : String) (vmid : ℤ)
    → node ≢ ""
    → NoSlash node
    → IsInt64 vmid
    → parse_provider_id (new_provider_id node vmid) ≡ ok (node, vmid)
unfolding parse_provider_id new_provider_id
parse-new node vmid ne ns h = rw (trim_prefix-append provider_id_scheme (rest_of node vmid)) (
    ground (
      arith,
      eq_iff (rest_of node vmid) (provider_id_scheme <> rest_of node vmid),
      scheme_ne (rest_of node vmid),
      parse_rest (provider_id_scheme <> rest_of node vmid) node vmid ne ns h,
    ))

-- A text that is accepted for (node, vmid).
pub record IsIdOf (id node : String) (vmid : ℤ) : Type 0 where
  pub id_str : String
  pub spelled : id ≡ provider_id_scheme <> (node <> ("/" <> id_str))
  pub node_ne : node ≢ ""
  pub node_plain : NoSlash node
  pub number : atoi id_str ≡ some vmid
  pub fits : IsInt64 vmid

parts_sound :
    (id t : String) (o : Option (String × String)) (node : String) (vmid : ℤ)
    → id ≡ provider_id_scheme <> t
    → Cuts t o
    → parse_parts id o ≡ ok (node, vmid)
    → IsIdOf id node vmid
unfolding parse_parts
parts_sound id t none node vmid e c h = cc
parts_sound id t (some (a, b)) node vmid e c h = elim (Bool-cases (a == "" || b == "")) [
  | inl bad ↦ ground arith
  | inr fine ↦ go (atoi b) refl (rw fine at h)
]
  where
    go :
        (o : Option ℤ)
        → atoi b ≡ o
        → parse_vmid id a b (atoi b) ≡ ok (node, vmid)
        → IsIdOf id node vmid
    go none q p = cc
    go (some k) q p =
        let r : ◌≡◌ {A = Result (String × ℤ)} (ok (a, k)) (ok (node, vmid)) =
          rw (q, parse_vmid) at p in
        let en : a ≡ node = ground arith in
        let ek : k ≡ vmid = ground arith in
        record {
          id_str = b;
          spelled = cc (e, c.1);
          node_ne = ground (arith, eq_iff a "");
          node_plain = subst NoSlash en c.0;
          number = cc;
          fits = atoi-IsInt64 b (q ∙ ap some ek);
        }

-- What `parseProviderID` accepts is the scheme, a node name that is not empty and has no slash, a
-- slash, and a text that `Atoi` reads as the VM id, which fits 64 bits.
pub parse-IsIdOf :
    (id node : String) (vmid : ℤ) → parse_provider_id id ≡ ok (node, vmid) → IsIdOf id node vmid
unfolding parse_provider_id
parse-IsIdOf id node vmid h = elim (Bool-cases (trim_prefix id provider_id_scheme == id)) [
  | inl foreign ↦ ground arith
  | inr ours ↦
      parts_sound id (trim_prefix id provider_id_scheme)
        (cut_slash (trim_prefix id provider_id_scheme)) node vmid
        (trim_prefix_sound id provider_id_scheme
          (ground (arith, eq_iff (trim_prefix id provider_id_scheme) id)))
        (cut_slash-Cuts (trim_prefix id provider_id_scheme)) (rw ours at h)
]
