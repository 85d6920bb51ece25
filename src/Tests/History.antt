-- ===== src/Tests/History.antt =====
-- A history of both reconcilers against an API server that grants every request.
use pgpilot_operator.Base.{true}
use pgpilot_operator.Controller.Session.{Session}
use pgpilot_operator.Controller.Monitor.{reconcile}
use pgpilot_operator.Controller.MetricLibrary.{reconcile as reconcile_library}
use pgpilot_operator.Controller.Watch.{library_object, library_to_monitors}
use pgpilot_operator.Controller.History.Justified.{Justified}
use pgpilot_operator.Tests.Data.{plain, orders_key, shared}
use pgpilot_operator.Tests.Controllers.{granting, start}

-- The library is published, its monitors are enqueued, another client acts, and the monitor is
-- reconciled.
abbrev published : Session granting
published = (reconcile_library granting orders_key start).1

abbrev enqueued : Session granting
enqueued = (library_to_monitors granting (library_object shared) published).1

abbrev interrupted : Session granting
interrupted = record enqueued { world = 7 }

abbrev reconciled : Session granting
reconciled = (reconcile granting plain true orders_key interrupted).1
