-- ===== src/Endpoint/Matching.antt =====
-- mdns-proto/src/endpoint/matching.rs: which names, questions and records concern a name of ours.
use hick.Prelude.{
  ℕ, zero, suc, Bool, true, false, not, ◌&&◌, ◌||◌, List, [], ◌∷◌, Option, none, some, Result, ok,
  err, stuck, ◌>>=◌, length, ◌==◌, if◌then◌else◌, to_ascii_lowercase,
}
use hick.Wire.Error.{Parsed}
use hick.Wire.Name.{NameRef, NameLabels, Yield, next, labels}
use hick.Wire.ResourceType.{ResourceType}
use hick.Wire.ResourceClass.{ResourceClass}
use hick.Wire.Question.{QuestionRef}
use hick.Wire.Record.{Ref}
use hick.Owner.{Name, trim, split}
use hick.Cache.{same_class}
pub mod Names

-- `for (a, b) in s.bytes().zip(i.iter())`
unfoldable pub zip_match : List ℕ → List ℕ → Bool
zip_match (a ∷ s) (b ∷ i) = to_ascii_lowercase a == to_ascii_lowercase b && zip_match s i
zip_match _ _ = true

-- The arm of two labels in the loop of `names_match_str`, without what follows it.
unfoldable pub label_match : List ℕ → List ℕ → Bool
label_match s i = if length s == length i then zip_match s i else false

-- One round of the loop with a label of the stored name, for what `iit.next()` answered;
-- `continue` is the rest of the loop.
unfoldable pub match_round : List ℕ → Yield → (NameLabels → Bool) → Bool
match_round s (iit, some (ok i)) continue = if label_match s i then continue iit else false
match_round s (iit, _) continue = false

-- The loop over the labels that are left of the stored name.
unfoldable pub match_loop : List (List ℕ) → NameLabels → Bool
match_loop [] iit = elim (next iit).1 [ none ↦ true | some _ ↦ false ]
match_loop (s ∷ sit) iit = match_round s (next iit) (match_loop sit)

unfoldable pub names_match_str : List ℕ → NameRef → Bool
names_match_str stored incoming = match_loop (split (trim stored)) (labels incoming)

unfoldable pub names_match : Name → NameRef → Bool
unfolding names_match_str
names_match stored incoming = names_match_str stored.text incoming

unfoldable pub names_match_record : Name → Ref → Bool
unfolding names_match
names_match_record stored r = names_match stored r.name

-- `name.labels().all(|label| label.is_ok())`, a label at a time. A label takes two octets at least,
-- so 128 rounds are enough for a name of 255; `none` means that the fuel ran out.
unfoldable pub decodes_round : Yield → (NameLabels → Option Bool) → Option Bool
decodes_round (s, none) continue = some true
decodes_round (s, some (ok l)) continue = continue s
decodes_round (s, some _) continue = some false

unfoldable pub decodes_loop : ℕ → NameLabels → Option Bool
unfolding decodes_round
decodes_loop zero s = none
decodes_loop (suc fuel) s = decodes_round (next s) (decodes_loop fuel)

unfoldable pub name_fully_decodes : NameRef → Option Bool
unfolding decodes_loop
name_fully_decodes name = decodes_loop 128 (labels name)

unfoldable pub question_is_about : QuestionRef → Name → Bool
unfolding names_match
question_is_about q name =
    (same_class q.qclass ResourceClass.in_class || same_class q.qclass ResourceClass.any)
    && names_match name q.qname

unfoldable pub is_host_conflict_rtype : ResourceType → Bool
is_host_conflict_rtype ResourceType.a = true
is_host_conflict_rtype ResourceType.aaaa = true
is_host_conflict_rtype _ = false
