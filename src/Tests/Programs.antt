-- ===== src/Tests/Programs.antt =====
-- Tests of the programs and of the text of the metrics.
use minimal_sip_proxy_sip_cl.Base.{
  Bytes, ◌≡◌, ◌-◌, ◌^◌, refl, none, some, [], ◌∷◌, codes, ok, err, pos, true, stoi, str_eq,
  to_string, to_u16, invalid_argument,
}
use minimal_sip_proxy_sip_cl.Proxy.Metrics.{no_metrics}
use minimal_sip_proxy_sip_cl.Proxy.Metrics.Report.{collector_text, metrics_response}
use minimal_sip_proxy_sip_cl.Proxy.Metrics.Server.{
  MetricsServer, new_metrics_server, accepting, start_server, join, set_up, test, accepted,
  server_loop, start, join_thread, thread, step, run, accepts,
}
use minimal_sip_proxy_sip_cl.Proxy.Metrics.Stopping.{stop_awaits_client}
use minimal_sip_proxy_sip_cl.Apps.ProxyMain.{read_ports}
use minimal_sip_proxy_sip_cl.Apps.ClientMain.{read_arguments, read_options}

ports_test : read_ports 5060 0 (codes "--tcp-port" ∷ codes "65537" ∷ []) ≡ ok (some (5060, 1))
unfolding read_ports stoi str_eq to_u16
ports_test = refl

bad_port_test : read_ports 5060 0 (codes "--udp-port" ∷ codes "x" ∷ []) ≡ err invalid_argument
unfolding read_ports stoi str_eq
bad_port_test = refl

arguments_test :
    read_arguments (
      codes "10.0.0.9"
      ∷ codes "5060"
      ∷ codes "--cli"
      ∷ codes "--tcp"
      ∷ codes "--user"
      ∷ codes "a"
      ∷ codes "--domain"
      ∷ codes "b"
      ∷ [])
    ≡ ok (
        some (record {
          server_ip = codes "10.0.0.9";
          server_port = pos 5060;
          mode = codes "--cli";
          auto_username = codes "a";
          auto_domain = codes "b";
          use_tcp = true;
        }))
unfolding read_arguments read_options stoi str_eq
arguments_test = refl

half_user_test :
    read_arguments (codes "h" ∷ codes "1" ∷ codes "--ui" ∷ codes "--user" ∷ codes "a" ∷ [])
    ≡ ok none
unfolding read_arguments read_options stoi str_eq
half_user_test = refl

text_test :
    collector_text (record no_metrics { active_calls = 2 ^ 64 - 1 })
    ≡ codes
        "--------------------------------------\nSIP_messages_received: 0\n--------------------------------------\nSIP_messages_sent: 0\n--------------------------------------\nSIP_active_calls: -1\n--------------------------------------\nSIP_registered_users: 0\n"
unfolding collector_text to_string
text_test = refl

-- A server that is stopped while it waits for a client.
abbrev waiting_server : MetricsServer
waiting_server = record new_metrics_server { running = true; server_thread = accepting }

abbrev client_text : Bytes
client_text = metrics_response no_metrics

abbrev stopped_server : MetricsServer
stopped_server = record new_metrics_server {
  answered = (5, client_text) ∷ [];
  closed_clients = 5 ∷ [];
}

waiting_test :
    run new_metrics_server (start ∷ thread (set_up true true) ∷ thread test ∷ [])
    ≡ some waiting_server
unfolding run step start_server server_loop
waiting_test = refl

stop_awaits_client_example :
    accepts (thread (accepted (some 5) no_metrics) ∷ thread test ∷ join_thread ∷ []) ≡ 1
unfolding run step server_loop join
stop_awaits_client_example =
    stop_awaits_client waiting_server stopped_server
      (thread (accepted (some 5) no_metrics) ∷ thread test ∷ join_thread ∷ []) tt refl refl
