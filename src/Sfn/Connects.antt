-- ===== src/Sfn/Connects.antt =====
-- What Connect leaves running, and what a settled function brings to its handshake.
use yomo.Common.{◌≡◌, refl, Bool, true, false, List, nat_key, string_key}
use yomo.Client.Connect.{Attempt}
use yomo.Sfn.{StreamFunction, has_cron, no_tags, connect_client, connect_with, connect_sfn}

running-connect_with :
    (s : StreamFunction) (attempts : List Attempt) (cron tagless : Bool)
    → cron ≡ true
    → (connect_with s attempts cron tagless).function.cron_running ≡ true
unfolding connect_with connect_client
running-connect_with s attempts true tagless h = refl
running-connect_with s attempts false tagless h = cc

-- Connect starts the cron of a function before it connects, and leaves it running whatever comes of
-- the connection: its handler is called also when Connect returned an error.
pub cron_running-connect_sfn :
    (s : StreamFunction) (attempts : List Attempt)
    → has_cron s ≡ true
    → (connect_sfn s attempts).function.cron_running ≡ true
unfolding connect_sfn
cron_running-connect_sfn s attempts h =
    running-connect_with s attempts (has_cron s) (no_tags s.observe_tags) h
