-- ===== src/Scenarios/Endpoints.antt =====
-- Four endpoints: one is silent, two keep the transfer, one is behind.
use sucopay.Prelude.{◌≤◌, ◌≡◌, refl, inl, inr, false, List, [], ◌∷◌, none, some, ok, arith}
use sucopay.Text.{text_eq, codes}
use sucopay.Finality.Ask.{
  Recorded, final, Answers, Endpoint, failed, no_error, Context, asked, ask, ask_from,
}
use sucopay.Finality.Ask.Agreement.{sayings, says_it, ask_agreement}
use sucopay.Finality.Ask.Decision.{ask_decides}

abbrev recorded : Recorded
recorded = record { tx = codes "0xtx"; height = 7; hash = codes "0xblock" }

abbrev silent : Endpoint
silent = record { receipt = λ tx. ([], failed); final_height = none }

abbrev pub keeps : Endpoint
keeps = record {
  receipt = λ tx. (record { height = 7; hash = codes "0xblock" } ∷ [], no_error);
  final_height = some 9;
}

abbrev behind : Endpoint
behind = record keeps { final_height = some 6 }

abbrev pub patient : Context
patient = record { ended_before = λ i. false; ended_after = λ i. false }

abbrev answers : Answers
answers = record { verdict = final; answered = 2; agreed = 2; silent = 0 ∷ [] }

abbrev endpoints : List Endpoint
endpoints = silent ∷ keeps ∷ keeps ∷ []

two_agree : ask patient (silent ∷ keeps ∷ keeps ∷ behind ∷ []) 2 recorded ≡ ok answers
unfolding ask ask_from asked text_eq
two_agree = refl

ask_agreement_example :
    (answers.agreed ≡ 2)
    × (answers.answered ≡ 2)
    × (2 ≤ sayings final recorded (silent ∷ keeps ∷ keeps ∷ behind ∷ []))
ask_agreement_example =
    ask_agreement patient (silent ∷ keeps ∷ keeps ∷ behind ∷ []) 2 recorded answers two_agree refl

ask_decides_example :
    (b : Answers) × (ask patient endpoints 2 recorded ≡ ok b) × (b.verdict ≡ final)
unfolding asked sayings says_it text_eq
ask_decides_example =
    ask_decides patient endpoints 2 recorded final (λ i. (refl, refl)) (omega arith)
      (inl refl, (inr refl, (inr refl, tt))) (omega arith)
