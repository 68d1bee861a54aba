-- ===== src/Endpoint/Admits.antt =====
-- mdns-proto/src/endpoint/admits.rs: what a datagram may do, by where it came from
-- (`Provenance` of mdns-proto/src/endpoint/received.rs).
use hick.Prelude.{◌≡◌, ◌≢◌, ◌↔◌, ◌⊎◌, inl, inr, refl, Bool, true, false, not, ◌&&◌, if◌then◌else◌}

pub data Provenance : Type 0 where
  own_echo own_echo_likely not_from_us unknown_origin : Provenance

pub data Answering : Type 0 where
  all defence_only nothing_answered : Answering

pub record Admits : Type 0 where
  pub observation : Bool
  pub quieting : Bool
  pub adjudication : Bool
  pub answering : Answering

abbrev pub nothing : Admits
nothing = record {
  observation = false;
  quieting = false;
  adjudication = false;
  answering = nothing_answered;
}

abbrev pub everything : Bool → Admits
everything answer_questions = record {
  observation = true;
  quieting = true;
  adjudication = true;
  answering = if answer_questions then all else defence_only;
}

abbrev pub defence : Admits
defence = record {
  observation = false;
  quieting = false;
  adjudication = true;
  answering = defence_only;
}

-- The match on the provenance.
unfoldable pub by_provenance : Provenance → Bool → Bool → Admits
by_provenance own_echo matched_advertised answer_questions = nothing
by_provenance own_echo_likely matched_advertised answer_questions = defence
by_provenance not_from_us matched_advertised answer_questions = everything answer_questions
by_provenance unknown_origin matched_advertised answer_questions =
    if matched_advertised then defence else everything answer_questions

unfoldable pub for_datagram : Provenance → Bool → Bool → Bool → Admits
unfolding by_provenance
for_datagram provenance matched_advertised answer_questions untrusted_response =
    if untrusted_response
    then nothing
    else by_provenance provenance matched_advertised answer_questions

unfoldable pub all_denied : Admits → Bool
all_denied a =
    not a.observation
    && (not a.quieting
        && (not a.adjudication && (elim a.answering [ nothing_answered ↦ true | _ ↦ false ])))

-- All is denied exactly to an ordered echo of our own and to a response that is not trusted; every
-- other datagram is adjudicated, so that a name is defended. What observes also quiets, and only
-- what observes is answered in full.
pub for_datagram_lem :
    (p : Provenance) (matched_advertised answer_questions untrusted_response : Bool)
    → let a = for_datagram p matched_advertised answer_questions untrusted_response in
      ((all_denied a ≡ true) ↔ ((p ≡ own_echo) ⊎ (untrusted_response ≡ true)))
      × (a.adjudication ≡ not (all_denied a))
      × (a.quieting ≡ a.observation)
      × ((a.observation ≡ true) ⊎ (a.answering ≢ all))
unfolding for_datagram all_denied
for_datagram_lem own_echo m a true = (((λ h. inr refl), (λ h. refl)), refl, refl, inr (λ h. cc))
for_datagram_lem own_echo m a false = (((λ h. inl refl), (λ h. refl)), refl, refl, inr (λ h. cc))
for_datagram_lem own_echo_likely m a true =
    (((λ h. inr refl), (λ h. refl)), refl, refl, inr (λ h. cc))
for_datagram_lem own_echo_likely m a false =
    (((λ h. cc), (λ h. elim h [ inl e ↦ cc | inr e ↦ cc ])), refl, refl, inr (λ h. cc))
for_datagram_lem not_from_us m a true = (((λ h. inr refl), (λ h. refl)), refl, refl, inr (λ h. cc))
for_datagram_lem not_from_us m a false =
    (((λ h. cc), (λ h. elim h [ inl e ↦ cc | inr e ↦ cc ])), refl, refl, inl refl)
for_datagram_lem unknown_origin m a true =
    (((λ h. inr refl), (λ h. refl)), refl, refl, inr (λ h. cc))
for_datagram_lem unknown_origin true a false =
    (((λ h. cc), (λ h. elim h [ inl e ↦ cc | inr e ↦ cc ])), refl, refl, inr (λ h. cc))
for_datagram_lem unknown_origin false a false =
    (((λ h. cc), (λ h. elim h [ inl e ↦ cc | inr e ↦ cc ])), refl, refl, inl refl)
