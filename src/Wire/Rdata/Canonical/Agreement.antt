-- ===== src/Wire/Rdata/Canonical/Agreement.antt =====
-- The forms of `RdataForm` against each other: when `write_canonical_rdata` succeeds.
use hick.Prelude.{
  ℕ, zero, suc, ◌≡◌, refl, sym, ap, ◌∙◌, Bool, true, false, not, ◌&&◌, List, [], ◌∷◌, ◌++◌, Option,
  none, some, ok, err, stuck, length, IsSlice, AreBytes, ltb, if◌then◌else◌, saturating_add,
}
use mathlib.Core.Path.{subst}
use hick.Wire.Error.{Parsed}
use hick.Wire.Name
use hick.Wire.Name.{NameRef, Label}
use hick.Wire.Name.Decode.{decode}
use hick.Wire.Name.Parse.{try_parse-Inline}
use hick.Wire.Name.Write.{Written, write_wire}
use hick.Wire.Name.Write.Laws.{Writes, write_wire-Writes}
use hick.Wire.ResourceType
use hick.Wire.ResourceType.{ResourceType, RdataNames, opaque, compressible}
use hick.Wire.Record.{Ref}
use hick.Wire.Rdata.Segments.{next_segment}
use hick.Wire.Rdata.{Rdata, rdata_view}
use hick.Wire.Rdata.InMessage.{InMessage, rdata_view-InMessage}
use hick.Wire.Rdata.Canonical.{
  RdataForm, slice_or_empty, write_names, write_decompressed_rdata, write_segment, write_segments,
  be_bytes, write_view, write_canonical_rdata,
}
use hick.Wire.Writer.{Writer, after, ◌>>=◌, pure, lift, put}

-- Two writers that come to the same result, whatever was written before.
abbrev Same : {A : Type 0} → Writer A → Writer A → Type 0
Same m m' = (out out' : List ℕ) → (m out).1 ≡ (m' out').1

module _ {A B : Type 0} (f f' : A → Writer B) where
  after-Same :
      (out out' : List ℕ) (r : Parsed A)
      → ((a : A) → r ≡ ok a → Same (f a) (f' a))
      → (after (out, r) f).1 ≡ (after (out', r) f').1
  after-Same out out' (ok a) same = same a refl out out'
  after-Same out out' (err e) same = refl
  after-Same out out' stuck same = refl

  >>=-Same :
      (m m' : Writer A) → Same m m' → ((a : A) → Same (f a) (f' a)) → Same (m >>= f) (m' >>= f')
  >>=-Same m m' here rest out out' =
      let x = m out in
      let x' = m' out' in
      subst (λ t. (after (x.0, x.1) f).1 ≡ (after (x'.0, t) f').1) (here out out')
        (after-Same x.0 x'.0 x.1 (λ a _. rest a))

  -- A parsed value is the same on both sides, and the rest may use what it was parsed from.
  lift-Same :
      (r : Parsed A)
      → ((a : A) → r ≡ ok a → Same (f a) (f' a))
      → Same (lift r >>= f) (lift r >>= f')
  lift-Same r rest out out' = after-Same out out' r rest

put-Same : (bytes bytes' : List ℕ) → Same (put bytes) (put bytes')
put-Same bytes bytes' out out' = refl

-- Writing a name fails as its decoding does, with or without the fold.
Writes-same :
    (fold_case fold_case' : Bool) (out out' : List ℕ) (r : Parsed (List Label)) (x x' : Written)
    → Writes fold_case out r x
    → Writes fold_case' out' r x'
    → x.1 ≡ x'.1
unfolding Writes
Writes-same fold_case fold_case' out out' (ok ls) x x' w w' =
    ap (λ t. t.1) w ∙ sym (ap (λ t. t.1) w')
Writes-same fold_case fold_case' out out' (err e) x x' w w' = w ∙ sym w'
Writes-same fold_case fold_case' out out' stuck x x' w w' = w ∙ sym w'

module _ (r : Ref) (bytes : AreBytes r.message) (fits : IsSlice r.message) where
  name-Same :
      (name : NameRef) (fold_case fold_case' : Bool)
      → name.message ≡ r.message
      → Same (write_wire name fold_case) (write_wire name fold_case')
  name-Same name fold_case fold_case' e out out' =
      let b : AreBytes name.message = subst AreBytes (sym e) bytes in
      let s : IsSlice name.message = subst (λ xs. IsSlice xs) (sym e) fits in
      Writes-same fold_case fold_case' out out' (decode name) _ _
        (write_wire-Writes name fold_case out b s) (write_wire-Writes name fold_case' out' b s)

  -- A name that was parsed out of the message.
  parsed_message :
      (cursor : ℕ) (parsed : NameRef × ℕ)
      → Name.try_parse r.message cursor ≡ ok parsed
      → parsed.0.message ≡ r.message
  parsed_message cursor (name, n) e =
      ap (λ x. x.message) (try_parse-Inline r.message cursor name n fits e).0

  module _ (fold_case fold_case' : Bool) where
    if-Same :
        {A : Type 0} (test : Bool) (e : Writer A) (m m' : Writer A)
        → Same m m'
        → Same e e
        → Same (if test then e else m) (if test then e else m')
    if-Same true e m m' same same_e = same_e
    if-Same false e m m' same same_e = same

    write_names-Same :
        (rdata_end names cursor : ℕ)
        → Same
            (write_names r rdata_end fold_case names cursor)
            (write_names r rdata_end fold_case' names cursor)
    unfolding write_names
    write_names-Same rdata_end zero cursor = λ out out'. refl
    write_names-Same rdata_end (suc names) cursor =
        lift-Same _ _ (Name.try_parse r.message cursor) λ parsed e.
          >>=-Same _ _ (write_wire parsed.0 fold_case) (write_wire parsed.0 fold_case')
            (name-Same parsed.0 fold_case fold_case' (parsed_message cursor parsed e))
            (λ _.
              if-Same (ltb rdata_end (saturating_add cursor parsed.1)) _ _ _
                (write_names-Same rdata_end names (saturating_add cursor parsed.1))
                (λ out out'. refl))

    decompressed-Same :
        (lead names : ℕ)
        → Same
            (write_decompressed_rdata r lead names fold_case)
            (write_decompressed_rdata r lead names fold_case')
    unfolding write_decompressed_rdata
    decompressed-Same lead names =
        let rdata_end = saturating_add r.rdata_start r.rdata_len in
        let start = saturating_add r.rdata_start lead in
        let before = slice_or_empty r.message r.rdata_start start in
        let tail = λ (cursor : ℕ). put (slice_or_empty r.message cursor rdata_end) in
        if-Same (ltb rdata_end start) _ _ _
          (λ out out'.
            >>=-Same tail tail (write_names r rdata_end fold_case names start)
              (write_names r rdata_end fold_case' names start)
              (write_names-Same rdata_end names start) (λ cursor o o'. refl) (out ++ before)
              (out' ++ before))
          (λ out out'. refl)

segment-Same :
    (item : Option (Parsed (List ℕ))) (wrote_any : Bool) (continue : Writer Bool)
    → Same continue continue
    → Same (write_segment item wrote_any continue) (write_segment item wrote_any continue)
unfolding write_segment
segment-Same none wrote_any continue same out out' = refl
segment-Same (some (ok bytes)) wrote_any continue same out out' = same _ _
segment-Same (some (err e)) wrote_any continue same out out' = refl
segment-Same (some stuck) wrote_any continue same out out' = refl

segments-Same :
    (fuel : ℕ) (rest : List ℕ) (wrote_any : Bool)
    → Same (write_segments fuel rest wrote_any) (write_segments fuel rest wrote_any)
unfolding write_segments
segments-Same zero rest wrote_any = λ out out'. refl
segments-Same (suc fuel) rest wrote_any =
    segment-Same (next_segment rest).1 wrote_any (write_segments fuel (next_segment rest).0 true)
      (segments-Same fuel (next_segment rest).0 true)

choose-Same :
    (test test' : Bool) (bytes : List ℕ)
    → Same (if test then put bytes else pure tt) (if test' then put bytes else pure tt)
choose-Same true true bytes out out' = refl
choose-Same true false bytes out out' = refl
choose-Same false true bytes out out' = refl
choose-Same false false bytes out out' = refl

names-Same :
    (r : Ref) (names : RdataNames) (bytes : List ℕ) (fold_case fold_case' : Bool)
    → AreBytes r.message
    → IsSlice r.message
    → Same
        (elim names [
          | opaque ↦ put bytes
          | compressible lead n ↦ write_decompressed_rdata r lead n fold_case
        ])
        (elim names [
          | opaque ↦ put bytes
          | compressible lead n ↦ write_decompressed_rdata r lead n fold_case'
        ])
names-Same r opaque bytes fold_case fold_case' b s = λ out out'. refl
names-Same r (compressible lead n) bytes fold_case fold_case' b s =
    decompressed-Same r b s fold_case fold_case' lead n

module _ (r : Ref) (bytes : AreBytes r.message) (fits : IsSlice r.message)
    (form form' : RdataForm) where
  view-Same :
      (v : Rdata) → InMessage r.message v → Same (write_view r form v) (write_view r form' v)
  unfolding write_view
  view-Same (Rdata.ptr p) e = name-Same r bytes fits p.target form.fold_case form'.fold_case e
  view-Same (Rdata.cname c) e = name-Same r bytes fits c.target form.fold_case form'.fold_case e
  view-Same (Rdata.srv s) e = λ out out'.
      name-Same r bytes fits s.target form.fold_case form'.fold_case e
        (((out ++ be_bytes s.priority) ++ be_bytes s.weight) ++ be_bytes s.port)
        (((out' ++ be_bytes s.priority) ++ be_bytes s.weight) ++ be_bytes s.port)
  view-Same (Rdata.nsec n) e =
      let tail = λ (_ : Unit {0}). put n.type_bitmap in
      >>=-Same tail tail (write_wire n.next_name form.fold_case)
        (write_wire n.next_name form'.fold_case)
        (name-Same r bytes fits n.next_name form.fold_case form'.fold_case e) (λ _ o o'. refl)
  view-Same (Rdata.other rest) e =
      names-Same r (ResourceType.rdata_names r.rtype) rest form.fold_case form'.fold_case bytes fits
  view-Same (Rdata.txt t) e =
      >>=-Same _ _ (write_segments (suc (length t.rdata)) t.rdata false)
        (write_segments (suc (length t.rdata)) t.rdata false)
        (segments-Same (suc (length t.rdata)) t.rdata false)
        (λ wrote_any.
          choose-Same (not wrote_any && form.normalise_empty_txt)
            (not wrote_any && form'.normalise_empty_txt) (0 ∷ []))
  view-Same _ e = λ out out'. refl

  -- For a record of a message of bytes whose length fits in an isize: whether the rdata decodes, and the error where it does not, are the same for every form, and do
  -- not depend on what the buffer held.
  pub canonical_agreement :
      (out out' : List ℕ)
      → (write_canonical_rdata r form out).1 ≡ (write_canonical_rdata r form' out').1
  unfolding write_canonical_rdata
  canonical_agreement =
      lift-Same (write_view r form) (write_view r form') (rdata_view r)
        (λ v e. view-Same v (rdata_view-InMessage r v fits e))
