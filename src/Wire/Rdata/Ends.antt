-- ===== src/Wire/Rdata/Ends.antt =====
-- Writing the canonical form of rdata ends.
use hick.Prelude.{
  ℕ, zero, suc, ◌≡◌, ◌≢◌, refl, sym, ap, arith, Bool, true, false, not, ◌&&◌, List, [], ◌∷◌, ok,
  err, stuck, ltb, if◌then◌else◌, length, IsSlice, AreBytes, saturating_add, Result-Cases, is_ok,
  is_err, is_stuck,
}
use mathlib.Core.Path.{subst}
use hick.Wire.Error.{Parsed, unsupported_name_bearing_type}
use hick.Wire.Name
use hick.Wire.Name.{NameRef}
use hick.Wire.Name.Parse.{try_parse-Inline, try_parse-ne-stuck}
use hick.Wire.Name.Decode.{decode, decode-ne-stuck}
use hick.Wire.Name.Write.{Written, write_wire}
use hick.Wire.Name.Write.Laws.{Writes, write_wire-Writes}
use hick.Wire.ResourceType
use hick.Wire.ResourceType.{ResourceType, opaque, compressible}
use hick.Wire.Record.{Ref, rdata}
use hick.Wire.Writer.{Writer, after, ◌>>=◌, ◌>>◌, pure, throw, lift, put}
use hick.Wire.Rdata.{
  Rdata, a_try_from_rdata, aaaa_try_from_rdata, ptr_try_from_message, cname_try_from_message,
  srv_head, srv_try_from_message, nsec_try_from_message, view_as, rdata_view,
}
use hick.Wire.Rdata.InMessage.{InMessage, rdata_view-InMessage}
use hick.Wire.Rdata.Strings.{segments-ne-stuck}
use hick.Wire.Rdata.Canonical.{
  RdataForm, slice_or_empty, write_names, write_decompressed_rdata, write_segments, be_bytes,
  write_view, write_canonical_rdata,
}

abbrev Ends : {A : Type 0} → Writer A → Type 0
Ends w = (out : List ℕ) → (w out).1 ≢ stuck

after-Ends :
    {A B : Type 0} (x : List ℕ × Parsed A) (f : A → Writer B)
    → x.1 ≢ stuck
    → ((v : A) → x.1 ≡ ok v → Ends (f v))
    → (after x f).1 ≢ stuck
after-Ends (out, ok v) f h k = k v refl out
after-Ends (out, err e) f h k = λ q. cc
after-Ends (out, stuck) f h k = λ q. h refl

bind-Ends :
    {A B : Type 0} (w : Writer A) (f : A → Writer B)
    → Ends w
    → ((v : A) → Ends (f v))
    → Ends (w >>= f)
bind-Ends w f h k out = after-Ends (w out) f (h out) (λ v _. k v)

lift-Ends :
    {A B : Type 0} (r : Parsed A) (f : A → Writer B)
    → r ≢ stuck
    → ((v : A) → r ≡ ok v → Ends (f v))
    → Ends (lift r >>= f)
lift-Ends r f h k out = after-Ends (out, r) f h k

put-Ends : (bytes : List ℕ) → Ends (put bytes)
put-Ends bytes out = λ q. cc

if-Ends : {A : Type 0} (b : Bool) (v w : Writer A) → Ends v → Ends w → Ends (if b then v else w)
if-Ends true v w p q = p
if-Ends false v w p q = q

Writes-ends :
    (fold_case : Bool) (out : List ℕ) (c : Parsed (List (List ℕ))) (r : Written)
    → Writes fold_case out c r
    → c ≢ stuck
    → r.1 ≢ stuck
unfolding Writes
Writes-ends fold_case out (ok ls) r w h =
    λ q. let e : r.1 ≡ ok tt = ap (λ (x : Written). x.1) w in cc
Writes-ends fold_case out (err e) r w h = λ q. cc
Writes-ends fold_case out stuck r w h = λ q. h refl

module _ (m : List ℕ) (bytes : AreBytes m) (fits : IsSlice m) where
  write_wire-Ends :
      (name : NameRef) (fold_case : Bool) → name.message ≡ m → Ends (write_wire name fold_case)
  write_wire-Ends name fold_case same out =
      let b = subst AreBytes (sym same) bytes in
      let f = subst (λ (xs : List ℕ). IsSlice xs) (sym same) fits in
      Writes-ends fold_case out (decode name) (write_wire name fold_case out)
        (write_wire-Writes name fold_case out b f) (decode-ne-stuck name b f)

module _ (m : List ℕ) (at len : ℕ) (fits : IsSlice m) where
  ptr-ends : ptr_try_from_message m at len ≢ stuck
  unfolding ptr_try_from_message
  ptr-ends e = elim (Result-Cases (Name.try_parse m at)) [
    | is_err x a ↦ ground arith
    | is_stuck a ↦ try_parse-ne-stuck m at fits a
    | is_ok (name, n) a ↦ ground arith
  ]

  cname-ends : cname_try_from_message m at len ≢ stuck
  unfolding cname_try_from_message
  cname-ends e = elim (Result-Cases (Name.try_parse m at)) [
    | is_err x a ↦ ground arith
    | is_stuck a ↦ try_parse-ne-stuck m at fits a
    | is_ok (name, n) a ↦ ground arith
  ]

  head-ends : srv_head m at ≢ stuck
  unfolding srv_head
  head-ends e = ground arith

  srv-ends : srv_try_from_message m at len ≢ stuck
  unfolding srv_try_from_message
  srv-ends e = elim (Result-Cases (Name.try_parse m (saturating_add at 6))) [
    | is_err x a ↦ ground (arith, head-ends)
    | is_stuck a ↦ try_parse-ne-stuck m (saturating_add at 6) fits a
    | is_ok (name, n) a ↦ ground (arith, head-ends)
  ]

  nsec-ends : nsec_try_from_message m at len ≢ stuck
  unfolding nsec_try_from_message
  nsec-ends e = elim (Result-Cases (Name.try_parse m at)) [
    | is_err x a ↦ ground arith
    | is_stuck a ↦ try_parse-ne-stuck m at fits a
    | is_ok (name, n) a ↦ ground arith
  ]

view_as-ends : (t : ResourceType) (r : Ref) → IsSlice r.message → view_as t r ≢ stuck
unfolding view_as a_try_from_rdata aaaa_try_from_rdata
view_as-ends t r fits e = ground (
  arith,
  ptr-ends r.message r.rdata_start r.rdata_len fits,
  cname-ends r.message r.rdata_start r.rdata_len fits,
  srv-ends r.message r.rdata_start r.rdata_len fits,
  nsec-ends r.message r.rdata_start r.rdata_len fits,
)

module _ (r : Ref) (bytes : AreBytes r.message) (fits : IsSlice r.message) where
  write_names-Ends :
      (rdata_end : ℕ) (fold_case : Bool) (names cursor : ℕ)
      → Ends (write_names r rdata_end fold_case names cursor)
  unfolding write_names
  write_names-Ends rdata_end fold_case zero cursor = λ out q. cc
  write_names-Ends rdata_end fold_case (suc names) cursor =
      lift-Ends (Name.try_parse r.message cursor)
        (λ parsed.
          write_wire parsed.0 fold_case
          >> (if ltb rdata_end (saturating_add cursor parsed.1)
              then throw (unsupported_name_bearing_type (ResourceType.to_u16 r.rtype))
              else write_names r rdata_end fold_case names (saturating_add cursor parsed.1)))
        (try_parse-ne-stuck r.message cursor fits)
        λ (name, n) e.
          bind-Ends (write_wire name fold_case)
            (λ _.
              if ltb rdata_end (saturating_add cursor n)
              then throw (unsupported_name_bearing_type (ResourceType.to_u16 r.rtype))
              else write_names r rdata_end fold_case names (saturating_add cursor n))
            (write_wire-Ends r.message bytes fits name fold_case
              (ap (λ (x : NameRef). x.message) (try_parse-Inline r.message cursor name n fits e).0))
            λ _.
              if-Ends (ltb rdata_end (saturating_add cursor n)) _ _ (λ out q. cc)
                (write_names-Ends rdata_end fold_case names (saturating_add cursor n))

  write_decompressed_rdata-Ends :
      (lead names : ℕ) (fold_case : Bool) → Ends (write_decompressed_rdata r lead names fold_case)
  unfolding write_decompressed_rdata
  write_decompressed_rdata-Ends lead names fold_case =
      let rdata_end = saturating_add r.rdata_start r.rdata_len in
      let start = saturating_add r.rdata_start lead in
      if-Ends (ltb rdata_end start) _ _ (λ out q. cc)
        (bind-Ends (put (slice_or_empty r.message r.rdata_start start))
          (λ _. write_names r rdata_end fold_case names start >>= λ cursor.
            put (slice_or_empty r.message cursor rdata_end))
          (put-Ends (slice_or_empty r.message r.rdata_start start))
          λ _.
            bind-Ends (write_names r rdata_end fold_case names start)
              (λ cursor. put (slice_or_empty r.message cursor rdata_end))
              (write_names-Ends rdata_end fold_case names start)
              λ cursor. put-Ends (slice_or_empty r.message cursor rdata_end))

  write_srv-Ends :
      (form : RdataForm) (p w o : ℕ) (target : NameRef)
      → target.message ≡ r.message
      → Ends (
          put (be_bytes p)
          >> (put (be_bytes w) >> (put (be_bytes o) >> write_wire target form.fold_case)))
  write_srv-Ends form p w o target same =
      bind-Ends (put (be_bytes p))
        (λ _. put (be_bytes w) >> (put (be_bytes o) >> write_wire target form.fold_case))
        (put-Ends (be_bytes p))
        λ _.
          bind-Ends (put (be_bytes w)) (λ _. put (be_bytes o) >> write_wire target form.fold_case)
            (put-Ends (be_bytes w))
            λ _.
              bind-Ends (put (be_bytes o)) (λ _. write_wire target form.fold_case)
                (put-Ends (be_bytes o))
                λ _. write_wire-Ends r.message bytes fits target form.fold_case same

  by_names :
      (names : ResourceType.RdataNames) (octets : List ℕ) (form : RdataForm)
      → Ends (elim names [
        | opaque ↦ put octets
        | compressible lead n ↦ write_decompressed_rdata r lead n form.fold_case
      ])
  by_names opaque octets form = put-Ends octets
  by_names (compressible lead n) octets form = write_decompressed_rdata-Ends lead n form.fold_case

  write_view-Ends :
      (form : RdataForm) (v : Rdata) → InMessage r.message v → Ends (write_view r form v)
  unfolding write_view
  write_view-Ends form (Rdata.a v) h = put-Ends (rdata r)
  write_view-Ends form (Rdata.aaaa v) h = put-Ends (rdata r)
  write_view-Ends form (Rdata.ptr p) h =
      write_wire-Ends r.message bytes fits p.target form.fold_case h
  write_view-Ends form (Rdata.cname c) h =
      write_wire-Ends r.message bytes fits c.target form.fold_case h
  write_view-Ends form (Rdata.srv s) h = write_srv-Ends form s.priority s.weight s.port s.target h
  write_view-Ends form (Rdata.nsec n) h =
      bind-Ends (write_wire n.next_name form.fold_case) (λ _. put n.type_bitmap)
        (write_wire-Ends r.message bytes fits n.next_name form.fold_case h)
        (λ _. put-Ends n.type_bitmap)
  write_view-Ends form (Rdata.txt t) h =
      bind-Ends (write_segments (suc (length t.rdata)) t.rdata false)
        (λ wrote_any. if not wrote_any && form.normalise_empty_txt then put (0 ∷ []) else pure tt)
        (segments-ne-stuck t.rdata)
        λ wrote_any.
          if-Ends (not wrote_any && form.normalise_empty_txt) _ _ (put-Ends (0 ∷ [])) (λ out q. cc)
  write_view-Ends form (Rdata.other octets) h =
      by_names (ResourceType.rdata_names r.rtype) octets form

  view-ends : rdata_view r ≢ stuck
  unfolding rdata_view
  view-ends = view_as-ends r.rtype r fits

  -- Writing the canonical form of the rdata of a record ends, in a message of bytes whose length
  -- fits in an isize.
  pub write_canonical_rdata-ne-stuck :
      (form : RdataForm) (out : List ℕ) → (write_canonical_rdata r form out).1 ≢ stuck
  unfolding write_canonical_rdata
  write_canonical_rdata-ne-stuck form out =
      lift-Ends (rdata_view r) (write_view r form) view-ends
        (λ v e. write_view-Ends form v (rdata_view-InMessage r v fits e)) out
