-- ===== src/Lib.antt =====
-- A verification of the operator dashboard of this repository, server/dashboard/src, which is the
-- repository's TypeScript. It is a library of the models of the dashboard's parts and of the
-- theorems about them.
--
-- The parts, and the file that models each:
--
--   Buffer.antt: ws/CircularBuffer.ts, the class `CircularBuffer`, its array with holes as a list.
--   Frames.antt: types/telemetry.ts, the frames of the live connection.
--   Telemetry.antt, Alerts.antt: store/telemetryStore.ts and store/alertStore.ts. The first has a
--   buffer for each vehicle and a counter that an animation frame bumps; the second a list.
--   Ws.antt: ws/WsManager.ts, the class `WsManager` (`subscribe`, `unsubscribe`, `_reconnect` as
--   `reconnect`, `_open` as `open_ws`, and so on) with the sockets and timers of the browser. What
--   can happen to it is the relation of Ws/Steps.antt. Ws/Phases.antt has the three phases that are
--   its invariant, Ws/Service.antt an abstract service that it implements. Its messages end in the
--   two stores above.
--   Auth.antt: store/authStore.ts, and Auth/Roles.antt: components/RoleGuard.tsx.
--   Fleet.antt: types/vehicle.ts, types/member.ts and types/apikey.ts.
--   Http.antt: api/client.ts, and Http/Requests.antt: api/fleet.ts, api/members.ts, api/apikeys.ts.
--   The client asks the auth store for the token, and logs out on a 401.
--   Server.antt: what an awaited call of a service brings.
--   Project.antt: pages/Project/ProjectPage.tsx, which subscribes its devices to the manager, reads
--   their buffers at each animation frame, and filters the alerts. Project/Watch.antt has its
--   effect on the devices, Project/Screen.antt what it shows, Project/Live.antt its path from a
--   message to the page, Project/Pending.antt its requests under way.
--   Shell.antt: App.tsx, components/NavSidebar/NavSidebar.tsx, components/TopBar/TopBar.tsx and
--   pages/AuthCallback/AuthCallbackPage.tsx: the routes with their guards, the links, the titles.
--   App.antt: the application as a whole, App.tsx with what it mounts: the session, the place, the
--   status light, the page of a project and the connection, over any events. App/Screen.antt: what
--   it renders around the pages, with pages/Login/LoginPage.tsx.
--   Markup.antt: elements with their handlers, and what a click runs. With it Modal/Dialog.antt,
--   Home/Screen.antt, Team/Screen.antt, Project/Markup.antt and ApiKeys/Screen.antt have what the
--   dialog and the pages render, with the handlers as they stand in the source.
--   Home.antt: pages/Home/HomePage.tsx, with its cards in Home/Cards.antt. Team.antt:
--   pages/Team/TeamPage.tsx, with what it shows in Team/Members.antt. ApiKeys.antt:
--   pages/ApiKeys/ApiKeysPage.tsx, with the guide to a new key in ApiKeys/Guide.antt. Each has the
--   state of its page and its handlers, which return the new state with the requests that they made.
--   Home/Pending.antt, Team/Pending.antt and ApiKeys/Pending.antt have the handlers cut where they
--   await, and Calls.antt the calls that await an answer.
--   Modal.antt: components/Modal/Modal.tsx. Env.antt: env.ts, and what store/authStore.ts and
--   api/client.ts make of it.
--   Base.antt: the shared names, and JavaScript's strings, sets, maps and arrays.
--
-- How the code is read. An object is a record, and a method takes the record first or last and
-- returns it changed; what a promise brings is an argument of the code that awaits it. A text is
-- the list of its UTF-16 code units; a `Set` and a `Map` are lists in the order of insertion. The
-- identity provider's client, `ky`, the router and the services are not in the repository: their
-- answers are arguments. `JSON.parse` is one too, since a message carries what it makes of the text;
-- the cast of its value to a frame is not checked by the code, so levels and roles are any text.
-- Numbers that are only stored and shown are their bits; the others are natural numbers. Time does
-- not pass: a pending timer may fire at any moment, and the theorems speak of its delay. The copy
-- buttons alone have a clock. In the files called Pending an answer is an event of its own, which may
-- come after others. A click runs the handlers of an element and of those around it; typing and the
-- key Enter are events of the pages.
--
-- Bounds. The code's own are kept: a thousand frames for each vehicle, two hundred alerts, five
-- hundred rows, and delays from one to thirty seconds. Each loop of the code runs over a list or
-- counts down. The only fuel is the number of redirects that `follow` and `settle` allow; three are
-- enough.
--
-- Not modelled: styles and the shapes of icons (the texts of dates and numbers are arguments), the
-- configuration of the build, the methods of `UserManager`, a buffer of capacity 0 (the program makes
-- none), and the parts of the repository in other languages.
pub mod Base
pub mod Calls
pub mod Markup
pub mod Buffer
pub mod Frames
pub mod Alerts
pub mod Telemetry
pub mod Ws
pub mod Auth
pub mod Fleet
pub mod Http
pub mod Server
pub mod Project
pub mod Modal
pub mod Env
pub mod App
pub mod Shell
pub mod Home
pub mod Team
pub mod ApiKeys
