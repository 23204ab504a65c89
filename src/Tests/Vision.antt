-- ===== src/Tests/Vision.antt =====
-- Inputs for the Writes of the vision flow (vless/vision.go).
use sing_vmess.Base.{ℕ, List, [], ◌∷◌, ◌++◌, replicate, Bytes, open_sink}
use sing_vmess.Vless.Vision.Writing.{Event, wrote, received, VisionConn, new_vision_conn, run}
use sing_vmess.Vless.Vision.Switching.{SwitchesRightly, run-SwitchesRightly}

abbrev entropy : ℕ → ℕ → ℕ
entropy n k = 0

abbrev filler : ℕ → Bytes
filler n = replicate n 0

abbrev client_hello : Bytes
client_hello = 22 ∷ 3 ∷ 1 ∷ 0 ∷ 9 ∷ 1 ∷ replicate 8 0

-- TLS 1.3 with AES 128 GCM and an empty session id.
abbrev hello : Bytes
hello =
    (22 ∷ 3 ∷ 3 ∷ 0 ∷ 74 ∷ 2 ∷ replicate 37 0)
    ++ ((0 ∷ 19 ∷ 1 ∷ replicate 27 0) ++ (0 ∷ 43 ∷ 0 ∷ 2 ∷ 3 ∷ 4 ∷ []))

abbrev application_data : Bytes
application_data = 23 ∷ 3 ∷ 3 ∷ 0 ∷ 2 ∷ 8 ∷ 9 ∷ []

abbrev events : List Event
events = received (client_hello ∷ []) ∷ wrote hello ∷ wrote application_data ∷ wrote (5 ∷ []) ∷ []

abbrev user_uuid : Bytes
user_uuid = replicate 16 7

abbrev switched : VisionConn
switched = run entropy filler events (new_vision_conn user_uuid (open_sink []) (open_sink []))

run-SwitchesRightly_example : SwitchesRightly switched
run-SwitchesRightly_example =
    run-SwitchesRightly entropy filler events user_uuid (open_sink []) (open_sink [])
