-- ===== src/Wire/Rdata/InMessage.antt =====
-- The messages that the names of an rdata refer to.
use hick.Prelude.{
  ℕ, ◌≡◌, arith, List, ok, IsSlice, saturating_add, Result-Cases, is_ok, is_err, is_stuck,
}
use hick.Wire.Name
use hick.Wire.Name.Parse.{try_parse-Inline}
use hick.Wire.ResourceType.{ResourceType}
use hick.Wire.Record.{Ref}
use hick.Wire.Rdata.{
  Rdata, Ptr, Cname, Srv, Nsec, ptr_try_from_message, cname_try_from_message, srv_try_from_message,
  nsec_try_from_message, view_as, rdata_view,
}

abbrev pub InMessage : List ℕ → Rdata → Type 0
InMessage m (Rdata.ptr p) = p.target.message ≡ m
InMessage m (Rdata.cname c) = c.target.message ≡ m
InMessage m (Rdata.srv s) = s.target.message ≡ m
InMessage m (Rdata.nsec n) = n.next_name.message ≡ m
InMessage m _ = Unit

module _ (m : List ℕ) (at len : ℕ) (fits : IsSlice m) where
  ptr_message : (p : Ptr) → ptr_try_from_message m at len ≡ ok p → p.target.message ≡ m
  unfolding ptr_try_from_message
  ptr_message p e = elim (Result-Cases (Name.try_parse m at)) [
    | is_err x a ↦ ground arith
    | is_stuck a ↦ ground arith
    | is_ok (name, n) a ↦ ground (arith, (try_parse-Inline m at name n fits a).0)
  ]

  cname_message : (c : Cname) → cname_try_from_message m at len ≡ ok c → c.target.message ≡ m
  unfolding cname_try_from_message
  cname_message c e = elim (Result-Cases (Name.try_parse m at)) [
    | is_err x a ↦ ground arith
    | is_stuck a ↦ ground arith
    | is_ok (name, n) a ↦ ground (arith, (try_parse-Inline m at name n fits a).0)
  ]

  srv_message : (s : Srv) → srv_try_from_message m at len ≡ ok s → s.target.message ≡ m
  unfolding srv_try_from_message
  srv_message s e = elim (Result-Cases (Name.try_parse m (saturating_add at 6))) [
    | is_err x a ↦ ground arith
    | is_stuck a ↦ ground arith
    | is_ok (name, n) a ↦ ground (arith, (try_parse-Inline m (saturating_add at 6) name n fits a).0)
  ]

  nsec_message : (n : Nsec) → nsec_try_from_message m at len ≡ ok n → n.next_name.message ≡ m
  unfolding nsec_try_from_message
  nsec_message n e = elim (Result-Cases (Name.try_parse m at)) [
    | is_err x a ↦ ground arith
    | is_stuck a ↦ ground arith
    | is_ok (name, k) a ↦ ground (arith, (try_parse-Inline m at name k fits a).0)
  ]

module _ (t : ResourceType) (r : Ref) (fits : IsSlice r.message) where
  view_as-InMessage : (v : Rdata) → view_as t r ≡ ok v → InMessage r.message v
  unfolding view_as
  view_as-InMessage (Rdata.ptr p) e =
      ground (arith, ptr_message r.message r.rdata_start r.rdata_len fits p)
  view_as-InMessage (Rdata.cname c) e =
      ground (arith, cname_message r.message r.rdata_start r.rdata_len fits c)
  view_as-InMessage (Rdata.srv s) e =
      ground (arith, srv_message r.message r.rdata_start r.rdata_len fits s)
  view_as-InMessage (Rdata.nsec n) e =
      ground (arith, nsec_message r.message r.rdata_start r.rdata_len fits n)
  view_as-InMessage _ e = tt

pub rdata_view-InMessage :
    (r : Ref) (v : Rdata) → IsSlice r.message → rdata_view r ≡ ok v → InMessage r.message v
unfolding rdata_view
rdata_view-InMessage r v fits e = view_as-InMessage r.rtype r fits v e
