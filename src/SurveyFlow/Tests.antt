-- ===== src/SurveyFlow/Tests.antt =====
-- A link whose own query names another respondent (surveys/survey_flow.py).
use quant_tool.Base.{String, str_eq, ◌≡◌, true, none, some, List, [], ◌∷◌, if◌then◌else◌}
use quant_tool.SurveyFlow.{Pair, Answer, build_outbound_url, build_biobrain_outbound_url}
use quant_tool.SurveyFlow.Routed.{each, is_routed, is_routed_vq, outbound_routed}

abbrev casefold : String → String
casefold key = if str_eq key "PID" then "pid" else if str_eq key "trackId" then "trackid" else key

abbrev strip : String → String
strip text = text

abbrev query : List Pair
query = ("survNum", "7") ∷ ("PID", "[%%pid%%]") ∷ ("AGE", "18") ∷ []

abbrev answers : List Answer
answers =
    record { question_key = "AGE"; upstream_values = some "34" ∷ none ∷ [] }
    ∷ record { question_key = "pid"; upstream_values = some "x" ∷ [] }
    ∷ []

outbound_routed_example :
    (each (is_routed casefold strip "aB3") (build_outbound_url casefold strip query "aB3" answers)
      ≡ true)
    × (each
          (is_routed_vq casefold strip "aB3")
          (build_biobrain_outbound_url casefold strip query "aB3")
        ≡ true)
outbound_routed_example = outbound_routed casefold strip "aB3" query answers
