-- ===== src/Work/DoWork.antt =====
-- CoAP_doWork of coap/server/lobaro-coap/coap_main.c: one step of the stack on the interaction that
-- has been pending longest.
use sming_coap.Base.{Option, none, some, ltb, if◌then◌else◌}
use sming_coap.Interaction.{
  Interaction, InteractionRole, role_not_set, server, notification, client,
  get_longest_pending_interaction,
}
use sming_coap.Stack.{Stack}
use sming_coap.Work.{enqueue_last}
use sming_coap.Work.Client.{client_work, client_step}
use sming_coap.Work.Notify.{notification_work, notification_step}
use sming_coap.Work.Server.{server_work, server_step}

unfoldable pub role_step : InteractionRole → Interaction → Stack → Option Stack
unfolding server_step notification_step client_step
role_step role_not_set ia s = some s
role_step server ia s = server_work ia s
role_step notification ia s = notification_work ia s
role_step client ia s = client_work ia s

-- A sleeping interaction goes to the end; otherwise the role decides.
unfoldable pub work_on : Option Interaction → Stack → Option Stack
unfolding enqueue_last role_step
work_on none s = some s
work_on (some ia) s =
    if ltb s.now ia.sleep_until then some (enqueue_last ia s) else role_step ia.role ia s

unfoldable pub do_work : Stack → Option Stack
unfolding get_longest_pending_interaction work_on
do_work s = work_on (get_longest_pending_interaction s.interactions) s
