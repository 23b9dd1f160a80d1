-- ===== src/TextParser/Examples.antt =====
-- A configuration with a number and a string.
use chat_server_mt.Base.{ℕ, List, ◌++◌, ◌⊎◌, ◌≡◌, refl, [], ◌∷◌, arith}
use chat_server_mt.TextParser.{overrun, refused, returned, get_value, get_string_value}
use chat_server_mt.TextParser.Words.{IsWord}
use chat_server_mt.TextParser.Find.{Entry, config, IsOther}
use chat_server_mt.TextParser.Lookup.{get_value-config}
use chat_server_mt.TextParser.Terminate.{get_value-answers}
use chat_server_mt.TextParser.Comment.{get_value-overruns}

-- `Port = 60` and `IP = "::1"`.
abbrev port : Entry
port = record { key = 80 ∷ 111 ∷ 114 ∷ 116 ∷ []; value = 54 ∷ 48 ∷ [] }

abbrev ip : Entry
ip = record { key = 73 ∷ 80 ∷ []; value = 34 ∷ 58 ∷ 58 ∷ 49 ∷ 34 ∷ [] }

port-IsWord : IsWord port.key
port-IsWord = ground arith

port-IsOther : IsOther ip.key port
port-IsOther = ground arith

get_value-config_example :
    get_value 0 (config (port ∷ ip ∷ [])) (80 ∷ 111 ∷ 114 ∷ 116 ∷ []) ≡ returned (54 ∷ 48 ∷ [])
get_value-config_example = get_value-config 0 [] port (ip ∷ []) tt port-IsWord refl (ground arith)

-- A text with a line feed at the end of its comment.
get_value-overruns_example :
    (get_value 0 (47 ∷ 47 ∷ 32 ∷ 10 ∷ 80 ∷ []) (80 ∷ []) ≡ overrun)
    × (get_string_value 0 (47 ∷ 47 ∷ 32 ∷ 10 ∷ 80 ∷ []) (80 ∷ []) 16 ≡ overrun)
get_value-overruns_example =
    get_value-overruns 0 (80 ∷ []) (32 ∷ 10 ∷ 80 ∷ []) 16 (refl, (refl, (refl, tt)))

-- A text without the key, and an unclosed quotation mark behind its end.
get_value-answers_example :
    let r = get_value 0 ((65 ∷ 32 ∷ 61 ∷ 32 ∷ 66 ∷ []) ++ 10 ∷ 125 ∷ 34 ∷ []) (66 ∷ []) in
    (r ≡ refused) ⊎ ((w : List ℕ) × (r ≡ returned w))
get_value-answers_example =
    get_value-answers 0 (65 ∷ 32 ∷ 61 ∷ 32 ∷ 66 ∷ []) (34 ∷ []) (66 ∷ []) (ground arith)
