-- ===== src/GenerationGate/Tests.antt =====
-- Witnesses and tests for the generation gate.
use travel_assistant.Base.{ℕ, ◌≡◌, refl, some, [], ◌∷◌, arith, string_eq, str}
use travel_assistant.RedisClient.{Moment}
use travel_assistant.GenerationGate.{
  other_action, parameters_changed, verify_action, java_string, null, text, decimal, cents,
  budget_value, two_places, Request, request_fingerprint, join, fingerprint_parts,
}
use travel_assistant.GenerationGate.Laws.{request_fingerprint-stored}

abbrev at_wall : ℕ → Moment
at_wall t = record { wall = t; asked = t; failed = t }

abbrev trip : Request
trip = record {
  city = text "成都";
  days = text "3";
  persons = text "2";
  stay_nights = null;
  budget = decimal 1_999_995 3;
  start_date = text "2026-05-01";
  end_date = null;
  hotel_tier = null;
  preferences = "美食" ∷ "历史" ∷ [];
}

request_fingerprint-stored_example :
    request_fingerprint (λ s. s) (record trip { budget = decimal 200_000 2 })
    ≡ request_fingerprint (λ s. s) (record trip { budget = decimal 1_999_995 3 })
request_fingerprint-stored_example =
    request_fingerprint-stored (λ s. s) trip 1_999_995 3 200_000 (omega arith, omega arith)

trip_fingerprint : request_fingerprint (λ s. s) trip ≡ "成都|3|2|null|2000.00|2026-05-01|null||美食,历史"
unfolding request_fingerprint fingerprint_parts join java_string budget_value cents two_places str
trip_fingerprint = refl

another_action : verify_action (some "a1") (some "f1") "a2" "f1" ≡ some other_action
unfolding verify_action
another_action = refl

changed_parameters : verify_action (some "a1") (some "f1") "a1" "f2" ≡ some parameters_changed
unfolding verify_action
changed_parameters = refl
