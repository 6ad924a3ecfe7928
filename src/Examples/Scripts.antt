-- ===== src/Examples/Scripts.antt =====
-- A script that replies twice, a window over three numbers, a stream that is piped back, and an
-- environment that asks for certificates.
use yomo.Common.{
  ℕ, String, ◌≡◌, refl, false, Option, none, some, List, [], ◌∷◌, ◌++◌, map, arith, ◌==◌, nat_key,
  string_key, if◌then◌else◌, length,
}
use yomo.Errors.{Error, plain, ok}
use yomo.Try.{returns, panics}
use yomo.Frame.{Bytes, Tag}
use yomo.Client.{taken}
use yomo.Serverless.{call_write, run}
use yomo.Deno.{put_uint32, ended, handle_replies, accept}
use yomo.Deno.Replies.{replies_then, Ends, handle_replies-replies_then, handle_replies-Ends}
use yomo.Deno.Observed.{tag_bytes, accept-tag_bytes, accept_panics}
use yomo.Rx.{
  Value, raw, error_value, nil_value, from_channel, pipe_back_to_zipper, raw_byte_handler, value,
}
use yomo.Rx.Handled.{slices, raw_byte_handler-run}
use yomo.Rx.Sliding.{sent_on, by_handler, sliding_window_with_count}
use yomo.Rx.Runs.{slid_events, sliding_window_with_count_loses}
use yomo.Rx.Timed.{
  TimedTurn, arrives, sends, window_timer, slide_timer, given, error_sent, new_timed, timed_after,
  timed_events, timed_turn, free_turn, put_item, send_on, check_buffer, updated_buf, values_of,
  apply_handler, after_handler,
}
use yomo.Rx.Timed.Locked.{last_sent}
use yomo.Rx.Timed.Recent.{arrived, recent, InTime}
use yomo.Rx.Timed.Lasting.{handed_over, check_buffer-arrived}
use yomo.Rx.Timed.Errors.{timed_events-error}
use yomo.Tls.{
  Platform, ServerConfig, ClientConfig, require_and_verify_client_cert, verify_peer,
  get_ca_cert_pool, get_cert_and_key, pair_of, or_generated, certificates_of,
  create_server_tls_config, create_client_tls_config,
}
use yomo.Tls.Peers.{Agreed, create_server_tls_config-Agreed}
use yomo.Examples.Serverless.{plain_context}

abbrev two_replies : List (Tag × Bytes)
two_replies = (7, 104 ∷ []) ∷ (0, 1 ∷ 2 ∷ []) ∷ []

handle_replies-replies_then_example :
    handle_replies plain_context taken (replies_then two_replies (9 ∷ []))
    ≡ (run plain_context (map (λ m. call_write taken m.0 (some m.1)) two_replies), ended (9 ∷ []))
handle_replies-replies_then_example =
    handle_replies-replies_then plain_context taken two_replies (9 ∷ []) (
      record { tag_fits = omega arith; length_fits = omega arith; no_end = refl },
      (record { tag_fits = omega arith; length_fits = omega arith; no_end = refl }, tt),
    )

handle_replies-Ends_example : Ends (handle_replies plain_context taken (7 ∷ 0 ∷ [])).1
handle_replies-Ends_example = handle_replies-Ends plain_context taken (7 ∷ 0 ∷ [])

abbrev two_tags : List Tag
two_tags = 51 ∷ 52 ∷ []

accept-tag_bytes_example :
    accept (put_uint32 (length two_tags) ++ (tag_bytes two_tags ++ 7 ∷ []))
    ≡ returns (two_tags, 7 ∷ [])
accept-tag_bytes_example =
    accept-tag_bytes two_tags (7 ∷ []) (omega arith) (omega arith, (omega arith, tt))

accept_panics_example : accept (put_uint32 1073741824 ++ ([] ++ 7 ∷ [])) ≡ panics
accept_panics_example = accept_panics 1073741824 [] (7 ∷ []) (omega arith) (omega arith) refl

abbrev accepts_all : List (Option ℕ) → Option Error
accepts_all window = none

sliding_window_with_count_loses_example :
    sliding_window_with_count accepts_all 2 3 (map value (5 ∷ 6 ∷ 7 ∷ 8 ∷ 9 ∷ []))
    ≡ sent_on 5
      ∷ sent_on 6
      ∷ sent_on 7
      ∷ by_handler accepts_all
          (some 5 ∷ some 6 ∷ [])
          8
          none
          (slid_events accepts_all 3 3 (5 ∷ 6 ∷ []) (9 ∷ []))
sliding_window_with_count_loses_example =
    sliding_window_with_count_loses accepts_all (5 ∷ []) (7 ∷ []) (9 ∷ []) 6 8

abbrev timed_turns : List (TimedTurn ℕ)
timed_turns = arrives 1 5 ∷ sends 2 ∷ arrives 4 6 ∷ slide_timer 7 ∷ []

abbrev later_turns : List (TimedTurn ℕ)
later_turns = window_timer 9 ∷ sends 9 ∷ arrives 10 7 ∷ slide_timer 12 ∷ []

abbrev no_error : List ℕ → Option Error
no_error window = none

-- an error for the windows that begin with 6
abbrev error_at_six : List ℕ → Option Error
error_at_six [] = none
error_at_six (v ∷ vs) = if v == 6 then some (plain "no") else none

turns-InTime : InTime 0 timed_turns 8
unfolding InTime
turns-InTime = (omega arith, (omega arith, (omega arith, (omega arith, omega arith))))

still_free : (timed_after no_error 4 new_timed timed_turns).locked ≡ false
unfolding timed_after timed_turn free_turn put_item send_on check_buffer updated_buf values_of
    apply_handler after_handler new_timed
still_free = refl

free_before_six : (timed_after error_at_six 6 new_timed timed_turns).locked ≡ false
unfolding timed_after timed_turn free_turn put_item send_on check_buffer updated_buf values_of
    apply_handler after_handler new_timed
free_before_six = refl

only_six : recent 6 8 (arrived false timed_turns) ≡ 6 ∷ []
unfolding recent arrived
only_six = refl

check_buffer-arrived_example :
    (check_buffer no_error 4 8 (timed_after no_error 4 new_timed timed_turns)).1
    ≡ handed_over no_error 4 (recent 4 8 (arrived false timed_turns))
check_buffer-arrived_example = check_buffer-arrived no_error 4 8 timed_turns turns-InTime still_free

timed_events-error_example :
    timed_events error_at_six 6 new_timed (timed_turns ++ (slide_timer 8 ∷ later_turns))
    ≡ timed_events error_at_six 6 new_timed timed_turns
      ++ (given (6 ∷ [])
          ∷ error_sent (plain "no")
          ∷ last_sent (timed_after error_at_six 6 new_timed timed_turns).pending later_turns)
timed_events-error_example =
    timed_events-error error_at_six 6 8 timed_turns later_turns 6 [] (plain "no") turns-InTime
      free_before_six only_six refl

abbrev mixed_values : List Value
mixed_values = raw (104 ∷ []) ∷ error_value (plain "lost") ∷ nil_value ∷ raw (105 ∷ []) ∷ []

raw_byte_handler-run_example :
    raw_byte_handler plain_context taken (pipe_back_to_zipper 7 (from_channel mixed_values))
    ≡ run plain_context (map (λ b. call_write taken 7 (some b)) (slices mixed_values))
raw_byte_handler-run_example = raw_byte_handler-run plain_context taken 7 mixed_values

abbrev verifying : String → String
verifying key =
    if key == "YOMO_TLS_VERIFY_PEER"
    then "True"
    else if key == "YOMO_TLS_CACERT_FILE"
    then ""
    else "f.pem"

abbrev verifying_platform : Platform
verifying_platform = record {
  getenv = verifying;
  read_file = λ path. ok (1 ∷ []);
  now = 0;
  parse_ip = λ h. none;
  Pool = ℕ;
  append_certs_from_pem = λ b. some 0;
  Key = ℕ;
  generate_key = ok 0;
  random_below = λ n. ok 0;
  create_certificate = λ t k. ok [];
  pem_encode = λ kind b. ok b;
  marshal_ec_private_key = λ k. ok [];
  Certificate = ℕ;
  x509_key_pair = λ cert key. ok 3;
}

abbrev verifying_server : ServerConfig verifying_platform
verifying_server = record {
  certificates = 3 ∷ [];
  client_cas = none;
  client_auth = require_and_verify_client_cert;
  next_protos = "yomo" ∷ [];
}

abbrev verifying_client : ClientConfig verifying_platform
verifying_client = record {
  insecure_skip_verify = false;
  certificates = 3 ∷ [];
  root_cas = none;
  next_protos = "yomo" ∷ [];
}

made_server : create_server_tls_config verifying_platform "h" ≡ ok verifying_server
unfolding create_server_tls_config get_ca_cert_pool get_cert_and_key pair_of or_generated
    verify_peer
made_server = refl

made_client : create_client_tls_config verifying_platform ≡ ok verifying_client
unfolding create_client_tls_config get_ca_cert_pool get_cert_and_key pair_of certificates_of
    verify_peer
made_client = refl

create_server_tls_config-Agreed_example :
    Agreed verifying_platform verifying_server verifying_client
create_server_tls_config-Agreed_example =
    create_server_tls_config-Agreed verifying_platform "h" verifying_server verifying_client
      made_server made_client
