-- ===== src/Lib.antt =====
-- A model of the browser side of the goradd server: the library assets/js/goradd.js, the shim
-- between the Go code and the page, and the scripts that build on it.
--
-- The parts and how they interact. Handlers on the page, which `on` attaches, queue actions
-- (`queueAction`), which the named timers run (`setTimer`, `processActions`). An action posts the form
-- through the ajax queue (`goradd.ajaxq`), which sends one request after another and hands each
-- reply to the page, or through the form itself (`postBack`); a request carries the controls that
-- have changed (`_getAjaxData`), so that the server keeps up with the page. A reply waits for its
-- files, replaces controls, which are registered again (`_registerControls`), and runs commands,
-- whose arguments are unpacked into values of the language (`_unpackArray`). Elements are wrapped in
-- controls (`g`), found and moved in the tree of the page; widgets extend `goradd.Control`
-- (`extendWidget`), their options are merged from defaults (`extend`, `extendOptions`). Watchers ask
-- for controls to be drawn again when the server sends a message on a channel of the web socket,
-- through `throttle` and another post.
--
-- Which file models what (every path below from the repository's root; where no file is named,
-- it is assets/js/goradd.js):
--   Base: names shared by all, tests, lists, dictionaries keyed by text, integers.
--   Ajaxq: `goradd.ajaxq`, a record of `_q`, `_currentRequests` and `_idCounter` with what was sent
--     and told; one function for each of `enqueue`, `isRunning`, `_dequeue`, `_do1` and the
--     handlers of the request, with the exceptions of `success` and `error`; a history is a list of
--     events.
--   Timers: `setTimer`, `clearTimer`, `hasTimer`, `throttle`, the control timers, with the browser's
--     clock and pending timers; a history is a derivation of a step relation.
--   Actions: `queueAction` and `processActions` over Timers.
--   Watchers: `_addWatcher`, `_processWatcherMessage`, `refresh`.
--   Value: the values of the language, `each`; Value/Extend: `extend`, `extendOptions`;
--     Value/Unpack: `_unpackArray`, `_unpackObj`, `unpackJsonDate`;
--     Value/Unpack/Typed: the types of what is packed.
--   Posting: `_getAjaxData`, `setControlValue`, `postBack`, `postAjax`, and `displayAjaxError` of
--     assets/js/goradd-debug.js: a record of the private variables and the inputs of the form.
--   Session: the specification of Posting: what the server holds of the controls, as a function
--     of the keys, and the edits and posts as a step relation.
--   Exchange: the composition of Ajaxq, Posting and Session: what `postAjax` queues, builds and sends,
--     what is on the way, and what the server holds; a history is a list of happenings.
--   Redraw: the composition of Watchers, the timer of `updateForm`, and Exchange: from a message of
--     the server to the request for a control.
--   Forms: the handler of `submit`, `setRadioInGroup`.
--   Responses: the loading of files and the commands of `_processAjax` and `_processAjax2`, and
--     `_processFinalCommands`; Responses/Invoke: `processCommand` over an interface of objects;
--     Responses/Replace: the controls that `_processAjax2` replaces.
--   Elements: `attr`, `class`, `data`, `val`, `hide` and `show` of `goradd.Control`;
--     Elements/Styles: `css` and `prop`.
--   Wrappers: `el`, `g`, the constructor of `goradd.Control`. Layout: `width`, `height`.
--   Dom: the tree of elements, as the children of each, with the calls of `goradd.TagBuilder` and
--     `goradd.Control` that place and find elements; Dom/Columns: `columnId`. Builder: what
--     `goradd.TagBuilder` gives to a new element.
--   Widgets: `extendWidget`, with classes as chains of prototypes, and the options of
--     `goradd.Widget`.
--   Utilities: `findNamedObject`, `setCookie`, `proxyVal`, the loading of files, the end of
--     `_processAjax2`. Escape: `textToHtml`.
--   Events: the function that `on` makes of a handler, with the parents of the target as a list;
--     Events/Listeners: `on` and `off`; Events/Trigger: `trigger`, `click`.
--   Registration: `_registerControls`, `_registerControl`, `_fromKebab`, `attachWidget`.
--   FileSelect: the widget of assets/js/file_select.js.
--   Capture: the widget of assets/js/image-capture.js, with the cameras, intervals and open requests
--     of the browser; a history is a list of events.
--   Messages: `subscribe` and the handlers of messenger/ws/assets/js/goradd-ws.js;
--     Messages/Socket: the life of the sockets, beside the watchers.
--   SelectTable: the widget of assets/js/table-select.js, with its rows as a list;
--     SelectTable/Opening: its scroller.
--   Scroll: `_newScrollTop` and `scrollIntoView` of assets/js/goradd-scrollIntoView.js.
--   Tests: runs at concrete inputs.
--
-- Bounds and fuel. Numbers are natural numbers, integers in Scroll and Layout, and fractions that are
-- not rounded in Capture/Framing. `processActions` takes fuel, since an action may queue others, and
-- Actions/Drain gives enough for it; so do `process_final_commands`, for which the number of the
-- commands is enough, `construct`, for which the length of the chain of classes is, and `parents`,
-- `closest` and `columnId`, for which the height of the tree is. All other loops recur on their lists.
-- Dictionaries keep keys in the order of insertion.
--
-- Not modelled: rendering, network transport, the Go packages of the server, the style sheets, and
-- of goradd.js the calls that only hand something to the browser (text, html, focus, cloning,
-- redirection, alerts).
-- The code of the page that handlers and callbacks run is opaque, but for the calls that it makes of
-- the part at hand; `JSON.parse`, dates, `new Function`, selectors and the layout are parameters.
pub mod Actions
pub mod Ajaxq
pub mod Base
pub mod Builder
pub mod Capture
pub mod Dom
pub mod Elements
pub mod Escape
pub mod Events
pub mod Exchange
pub mod FileSelect
pub mod Forms
pub mod Layout
pub mod Messages
pub mod Posting
pub mod Redraw
pub mod Registration
pub mod Responses
pub mod Scroll
pub mod SelectTable
pub mod Session
pub mod Tests
pub mod Timers
pub mod Utilities
pub mod Value
pub mod Watchers
pub mod Widgets
pub mod Wrappers
