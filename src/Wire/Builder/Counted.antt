-- ===== src/Wire/Builder/Counted.antt =====
-- What a push does: it extends what was written, and counts in its section where it succeeds.
use hick.Prelude.{
  ℕ, ◌+◌, ◌≡◌, refl, sym, ap, ◌∙◌, arith, Bool, true, false, Result, ok, err, stuck, min,
  if◌then◌else◌,
}
use mathlib.Core.Path.{subst}
use hick.Wire.Error.{EncodeError}
use hick.Wire.Header.{Header}
use hick.Wire.Header.Laws.{IsHeader}
use hick.Wire.ResourceType.{ResourceType}
use hick.Owner.{Name}
use hick.Wire.Builder.{MessageBuilder, Build, ◌>>◌, after}
use hick.Wire.Builder.Push.{
  Section, add_one, questions, answers, authorities, additionals, count, write_head,
}
use hick.Wire.Builder.Extends.{Fits, Extends, Extends-itself, Keeps}
use hick.Wire.Builder.Steps.{write_head-Keeps}

-- What a builder has become where only the header may have changed otherwise.
abbrev pub Behind : MessageBuilder → MessageBuilder → Type 0
Behind b b' = Extends b (record b' { header = b.header })

pub Behind-Fits : (b b' : MessageBuilder) → Behind b b' → Fits b'
Behind-Fits b b' e = record {
  slice = e.fits.slice;
  cursor = e.fits.cursor;
  used = e.fits.used;
  table = e.fits.table;
}

Behind-same : (b b' : MessageBuilder) → Extends b b' → Behind b b'
Behind-same b b' e = record {
  size = e.size;
  grows = e.grows;
  header = refl;
  fits = record {
    slice = e.fits.slice;
    cursor = e.fits.cursor;
    used = e.fits.used;
    table = e.fits.table;
  };
  written = e.written;
  entries = e.entries;
  more_used = e.more_used;
  known = e.known;
}

pub Behind-trans : (a b c : MessageBuilder) → Behind a b → Behind b c → Behind a c
Behind-trans a b c p q = record {
  size = q.size ∙ p.size;
  grows = omega (arith, p.grows, q.grows);
  header = refl;
  fits = record {
    slice = q.fits.slice;
    cursor = q.fits.cursor;
    used = q.fits.used;
    table = q.fits.table;
  };
  written = λ n h. q.written n (omega (arith, p.grows)) ∙ p.written n h;
  entries = q.entries ∙ p.entries;
  more_used = omega (arith, p.more_used, q.more_used);
  known = λ n h. q.known n (omega (arith, p.more_used)) ∙ p.known n h;
}

abbrev pub succeeds : Result EncodeError (Unit {0}) → Bool
succeeds (ok _) = true
succeeds _ = false

-- A push into a section: it has succeeded, and the section has one more; or it has failed, and the
-- header is as it was.
pub record Pushed (more : Section) (b : MessageBuilder)
    (r : MessageBuilder × Result EncodeError (Unit {0})) : Type 0 where
  pub behind : Behind b r.0
  pub header : r.0.header ≡ (if succeeds r.1 then add_one more b.header else b.header)

abbrev pub Pushes : Section → Build (Unit {0}) → Type 0
Pushes more m = (b : MessageBuilder) → Fits b → Pushed more b (m b)

pub count-Pushes : (more : Section) → Pushes more (count more)
count-Pushes more b fits = record {
  behind = Behind-same b b (Extends-itself b fits);
  header = refl;
}

after-Pushed :
    (more : Section) (a : MessageBuilder) (r : MessageBuilder × Result EncodeError (Unit {0}))
    (k : Build (Unit {0}))
    → Extends a r.0
    → Pushes more k
    → Pushed more a (after r (λ _. k))
after-Pushed more a (b, ok x) k e push =
    let p = push b e.fits in
    record {
      behind = Behind-trans a b (k b).0 (Behind-same a b e) p.behind;
      header = p.header ∙ ap (λ h. if succeeds (k b).1 then add_one more h else h) e.header;
    }
after-Pushed more a (b, err x) k e push = record { behind = Behind-same a b e; header = e.header }
after-Pushed more a (b, stuck) k e push = record { behind = Behind-same a b e; header = e.header }

pub then-Pushes :
    (more : Section) (m k : Build (Unit {0})) → Keeps m → Pushes more k → Pushes more (m >> k)
then-Pushes more m k p q b fits = after-Pushed more b (m b) k (p b fits) q

-- A record: its head, its rdata, and the count of its section.
pub record-Pushes :
    (name : Name) (rtype : ResourceType) (class ttl : ℕ) (rdata : Build (Unit {0})) (more : Section)
    → Keeps rdata
    → Pushes more (write_head name rtype class ttl >> (rdata >> count more))
record-Pushes name rtype class ttl rdata more k =
    then-Pushes more (write_head name rtype class ttl) (rdata >> count more)
      (write_head-Keeps name rtype class ttl)
      (then-Pushes more rdata (count more) k (count-Pushes more))

abbrev pub same_section : Section → Section → Bool
same_section questions questions = true
same_section answers answers = true
same_section authorities authorities = true
same_section additionals additionals = true
same_section _ _ = false

-- A header with so many more in each section, as far as 16 bits count.
abbrev pub with_more : Header → (Section → ℕ) → Header
with_more h more = record h {
  question_count = min (h.question_count + more questions) 65535;
  answer_count = min (h.answer_count + more answers) 65535;
  authority_count = min (h.authority_count + more authorities) 65535;
  additional_count = min (h.additional_count + more additionals) 65535;
}

set_counts :
    (h : Header) {a a' b b' c c' d d' : ℕ}
    → a ≡ a'
    → b ≡ b'
    → c ≡ c'
    → d ≡ d'
    → record h { question_count = a; answer_count = b; authority_count = c; additional_count = d }
      ≡ record h {
        question_count = a';
        answer_count = b';
        authority_count = c';
        additional_count = d';
      }
set_counts h p q r s = λ i. record h {
  question_count = p i;
  answer_count = q i;
  authority_count = r i;
  additional_count = s i;
}

pub with_more_none : (h : Header) → IsHeader h → with_more h (λ _. 0) ≡ h
with_more_none h known =
    set_counts h (omega (arith, known.question_count)) (omega (arith, known.answer_count))
      (omega (arith, known.authority_count)) (omega (arith, known.additional_count))

pub with_more-add_one :
    (more : Section) (h : Header) (t : Section → ℕ)
    → with_more (add_one more h) t ≡ with_more h (λ s. if same_section s more then t s + 1 else t s)
with_more-add_one questions h t = set_counts h (omega arith) refl refl refl
with_more-add_one answers h t = set_counts h refl (omega arith) refl refl
with_more-add_one authorities h t = set_counts h refl refl (omega arith) refl
with_more-add_one additionals h t = set_counts h refl refl refl (omega arith)

pub with_more-IsHeader : (h : Header) (t : Section → ℕ) → IsHeader h → IsHeader (with_more h t)
with_more-IsHeader h t known = record {
  id = known.id;
  flags = known.flags;
  question_count = omega arith;
  answer_count = omega arith;
  authority_count = omega arith;
  additional_count = omega arith;
}

-- The header behind one push is within its range as well.
pub add_one-IsHeader : (more : Section) (h : Header) → IsHeader h → IsHeader (add_one more h)
add_one-IsHeader more h known =
    let once : Section → ℕ = λ s. if same_section s more then 0 + 1 else 0 in
    let two_ways : with_more (add_one more h) (λ _. 0) ≡ with_more h once =
      with_more-add_one more h (λ _. 0) in
    subst IsHeader (sym two_ways ∙ again more) (with_more-IsHeader h once known)
  where
    again : (more : Section) → with_more (add_one more h) (λ _. 0) ≡ add_one more h
    again questions =
        set_counts (add_one questions h) (omega arith) (omega (arith, known.answer_count))
          (omega (arith, known.authority_count)) (omega (arith, known.additional_count))
    again answers =
        set_counts (add_one answers h) (omega (arith, known.question_count)) (omega arith)
          (omega (arith, known.authority_count)) (omega (arith, known.additional_count))
    again authorities =
        set_counts (add_one authorities h) (omega (arith, known.question_count))
          (omega (arith, known.answer_count)) (omega arith) (omega (arith, known.additional_count))
    again additionals =
        set_counts (add_one additionals h) (omega (arith, known.question_count))
          (omega (arith, known.answer_count)) (omega (arith, known.authority_count)) (omega arith)
