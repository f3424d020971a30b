-- ===== src/Samples/Handlers.antt =====
-- The theorems on the handlers, at the sample session.
use dbus_router.FakeName.{to_fake_name}
use dbus_router.Message.Endian.{Order}
use dbus_router.Message.Frame.{bytes_of}
use dbus_router.Prelude.{
  ◌≡◌, refl, true, some, [], ◌∷◌, arith, codes, ok, str_eq, strip_prefix, contains, get,
}
use dbus_router.Samples.{
  sample_glob, sample_zvariant, sample_world, all_writes, sample_frame, sample_header, call_header,
  call_of_client, call_of_peer, service_call, reply_of_client, reply_header, sample_field,
  sample_message-IsFramed, real_destination-fits, fake_destination-fits, real_sender-fits,
  fake_sender-fits, unique,
}
use dbus_router.Bus.{Bus}
use dbus_router.Daemon.Routes.{signal_needs_rewrite}
use dbus_router.Routing.{is_hostpass_client}
use dbus_router.Session.Adds.{Added}
use dbus_router.Session.Client.Answer.{answered, handle_client_message-answer}
use dbus_router.Session.Run.Bounds.{FewFds, forward_loop-Added}
use dbus_router.Session.Run.{message, closed, finished, forward_loop}
use dbus_router.Session.Run.Hostpass.{forward_loop-sandbox_ends}
use dbus_router.Session.Upstream.Remembers.{handle_upstream_message-remembers}
use dbus_router.Session.Upstream.Shown.{handle_upstream_message-shown}
use dbus_router.Session.Upstream.{is_incoming_service_call, handle_upstream_message}
use dbus_router.Session.Client.Addressed.{written, handle_client_message-addressed}
use dbus_router.Session.Client.{remember_call, handle_client_message}
use dbus_router.Session.State.{client, upstream}

handle_client_message-addressed_example :
    handle_client_message all_writes sample_glob call_of_client sample_world ≡ (
      ok tt,
      written
          (record sample_world {
            session = remember_call call_of_client Bus.host sample_world.session;
          })
          (record {
            peer = upstream Bus.host;
            raw = bytes_of Order.little (sample_frame 6 (codes ":1.5") []);
            fds = 3 ∷ [];
          }),
    )
unfolding to_fake_name strip_prefix is_hostpass_client
handle_client_message-addressed_example =
    handle_client_message-addressed sample_glob all_writes call_of_client
      (sample_frame 6 (codes ":h.1.5") []) sample_world Bus.host (codes ":1.5")
      (sample_message-IsFramed call_header 6 (codes ":h.1.5") [] refl fake_destination-fits)
      (sample_field 6 (codes ":h.1.5") [] (λ e. omega arith)) refl unique real_destination-fits
      (omega arith) refl refl refl

handle_upstream_message-shown_example :
    handle_upstream_message sample_zvariant all_writes call_of_peer Bus.host sample_world ≡ (
      ok tt,
      written sample_world (record {
        peer = client;
        raw = bytes_of Order.little (sample_frame 7 (codes ":h.1.5") []);
        fds = 3 ∷ [];
      }),
    )
unfolding to_fake_name strip_prefix is_incoming_service_call signal_needs_rewrite str_eq
handle_upstream_message-shown_example =
    handle_upstream_message-shown sample_zvariant all_writes call_of_peer
      (sample_frame 7 (codes ":1.5") []) sample_world Bus.host (codes ":1.5")
      (sample_message-IsFramed (record sample_header { sender = some (codes ":1.5") }) 7
        (codes ":1.5") [] refl real_sender-fits)
      (sample_field 7 (codes ":1.5") [] (λ e. omega arith)) refl unique fake_sender-fits refl refl
      refl (omega arith) refl

is_service_call : is_incoming_service_call sample_world.session service_call Bus.host ≡ true
unfolding is_incoming_service_call contains str_eq
is_service_call = refl

handle_client_message-answer_example :
    handle_client_message all_writes sample_glob (reply_of_client 9) sample_world ≡ (
      ok tt,
      written
          (record sample_world { session = answered sample_world.session 9 })
          (record {
            peer = upstream Bus.host;
            raw = bytes_of Order.little (sample_frame 6 (codes ":1.5") []);
            fds = 3 ∷ [];
          }),
    )
unfolding to_fake_name strip_prefix get
handle_client_message-answer_example =
    handle_client_message-answer sample_glob all_writes (reply_of_client 9)
      (sample_frame 6 (codes ":h.1.5") []) sample_world 9 Bus.host Bus.host (codes ":1.5") refl refl
      refl
      (sample_message-IsFramed (reply_header 9) 6 (codes ":h.1.5") [] refl fake_destination-fits)
      (sample_field 6 (codes ":h.1.5") [] (λ e. omega arith)) refl unique real_destination-fits
      (omega arith) refl

handle_upstream_message-remembers_example :
    get
      (handle_upstream_message sample_zvariant all_writes service_call Bus.host
        sample_world).1.incoming_calls
      7
    ≡ some Bus.host
handle_upstream_message-remembers_example =
    handle_upstream_message-remembers sample_zvariant all_writes service_call Bus.host sample_world
      7 is_service_call

forward_loop-sandbox_ends_example :
    forward_loop sample_zvariant sample_glob all_writes
      ((upstream Bus.sandbox, closed) ∷ (upstream Bus.sandbox, closed) ∷ (client, closed) ∷ [])
      sample_world
    ≡ (finished, sample_world)
unfolding is_hostpass_client
forward_loop-sandbox_ends_example =
    forward_loop-sandbox_ends sample_zvariant sample_glob all_writes closed
      ((upstream Bus.sandbox, closed) ∷ (client, closed) ∷ []) sample_world refl

forward_loop-Added_example :
    Added FewFds sample_world
      (forward_loop sample_zvariant sample_glob all_writes
        ((client, message call_of_client)
          ∷ (upstream Bus.host, message service_call)
          ∷ (client, closed)
          ∷ [])
        sample_world).1
forward_loop-Added_example =
    forward_loop-Added sample_zvariant sample_glob all_writes
      ((client, message call_of_client)
        ∷ (upstream Bus.host, message service_call)
        ∷ (client, closed)
        ∷ [])
      sample_world
