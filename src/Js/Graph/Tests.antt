-- ===== src/Js/Graph/Tests.antt =====
-- A module that waits for two others, which have arrived.
use rsvim.Prelude.{false, none, []}
use rsvim.Js.Names.{codes}
use rsvim.Js.Graph.{fetching, resolving, ready, EsModule, es_module, nil, cons}
use rsvim.Js.Graph.Arrived.{HasNoDuplicate, Forwarded, fast_forward-Forwarded}

abbrev leaf : EsModule
leaf = es_module (codes "/b.js") resolving nil none false

abbrev root : EsModule
root =
    es_module (codes "/a.js") fetching
      (cons leaf (cons (es_module (codes "/c.js") ready nil none false) nil)) none false

fast_forward-Forwarded_example : Forwarded root []
unfolding HasNoDuplicate
fast_forward-Forwarded_example = fast_forward-Forwarded root [] (tt, (tt, tt))
