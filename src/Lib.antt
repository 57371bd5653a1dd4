-- ===== src/Lib.antt =====
-- The Tournament platform: the Django application under django-api/app, which keeps users, teams,
-- tournaments and matches in one database, rates teams and players by the Elo formula when the
-- result of a match is reported, and tells Kafka consumers of it.
--
-- The parts, and the files that model them. Paths are below django-api/app.
-- - Base, Exec, Raises: the names that all modules share, and Python's exceptions and state. An
--   operation of type `Exec World A` takes the state and returns a result or an exception, with the
--   state as it left it; `atomic` is `transaction.atomic`. Raises has do blocks for pure code.
-- - Models: a record for each model of apps/users/models.py, apps/teams/models.py,
--   apps/tournaments/models.py and events/models.py, and the state `World`, which has their tables
--   as lists of rows, the clock, and what left the process. Models/Tables has the lookups and saves
--   of the ORM, with the constraint that each call can violate.
-- - Rating: `_expected_score` and `_update_elo` (apps/tournaments/services.py), `calculate_elo`
--   (apps/teams/services.py) and `_elo_new` (apps/tournaments/sql_queries.py). Floats is an
--   interface of the interpreter's floats, with what IEEE 754 guarantees as its laws;
--   Floats/Thousandths is an instance of it.
-- - SqlQueries: apps/tournaments/sql_queries.py, `record_match_result` in one transaction and in
--   Queries the reads; Leaderboard, Wins and History are about one read each. A group of rows and an
--   order keep the table's order where SQL leaves it open.
-- - Teams: `update_elo` of apps/teams/services.py, which rates the two teams of a match.
-- - Tournaments: apps/tournaments/services.py. UserRating is `_update_team_elo` and
--   `_update_team_elo_by_match_id`, MatchService is `report_result`, and TournamentService is
--   `start`. Failure is about a report that raises. `report_result` saves the match, rates the
--   players, calls `Teams.Service.update_elo` and publishes `match.finished`.
-- - Events: `publish_event` of events/producer.py, and in Consumer the functions
--   `handle_with_retry` and `consume_loop` of events/consumer_base.py, over what the polls give.
--   Contract has the payload contracts of requirements/kafka+events.md.
-- - Consumers: the handlers of consumers/ranking_consumer.py, notification_consumer.py and
--   log_consumer.py. They read the events that the services publish, through the interface `Wire`
--   of Json. Pipeline has their attempts at the event of a report, in any order, and Failure is about
--   an attempt that raises.
-- - Views: Access is common/permissions.py and the `get_permissions` of the view sets; Matches is
--   `MatchViewSet.report` with `MatchReportSerializer` and `Match.clean`; MatchCreation is the
--   `create` that `MatchViewSet` inherits, with `MatchResponseSerializer`; Tournaments and Teams are
--   the other view sets' `create`, `TournamentViewSet.get_queryset` and `UserManager`; Filters is
--   `TournamentFilterSet` and `MatchFilterSet`, TeamList the list of `TeamViewSet`; Rankings is
--   `RankingListView` and `TeamEloHistoryView`, with TournamentRanking on the first; Answers is the
--   table of what a report is answered with; Users is `UserViewSet` with `UserFilterSet`; Jwt is
--   `JwtAuthMiddleware.__call__` of middleware/jwt_auth.py; Authentication is
--   `BearerHeaderAuthentication` of apps/users/authentication.py, and Stack is a report through both;
--   Trust and Twins are about whom the middleware lets through;
--   Throttled is `custom_exception_handler` of common/exceptions.py.
-- - SeedData: the command apps/users/management/commands/seed_data.py, with its `get_or_create` in
--   Create and `_clear` in Clear. Again is about a second run; Lookup and Rounds have what it finds of
--   the first one, step by step, by the rules of Exec/Again.
-- - Platform: all of this as one step relation. A step is a request to an endpoint, an attempt of a
--   consumer at a message, the start of a tournament, any change of members and registrations, or
--   time that passes, in any order and whatever each of them answers. The theorems of Once, Winners,
--   Final, Topics and Ledger are about every state that steps lead to; Balance is the abstract view
--   of the ratings that Ledger refines.
-- - Concurrency: `report_result` statement by statement, for reports at the same time. A `System` is
--   the state and the reports under way; a list of `Happening` says which request or event is served,
--   which report comes in, at the view (`asked`) or at the service (`came`), and which executes its
--   next statement. Rest and Alone relate the statements to the model of the whole function. Books,
--   Race and Winners are about interleavings, Winners with what
--   Checked and Teams have: that the view's check of the winner stays true. Locks is the row locks of
--   `update_elo`.
-- - Tests: a small platform, and each theorem at a concrete input.
--
-- Choices of the model.
-- - Ratings and scores are integers of any size, and an `IntegerField` refuses what does not fit 32
--   bits when a row is saved. Times and dates are numbers, and one sequence gives all new ids.
-- - `transaction.on_commit` runs its callback at once, since no transaction is open around a
--   request. An operation of `Exec` runs without interruption; what other requests may do between its
--   statements is the subject of Concurrency, where only the part of `update_elo` under its row locks
--   is one statement, and the commit of one transaction is seen whole by the next statement.
-- - The choices of a `choices` field are constructors of a data type.
-- - The loop of a consumer runs over a list of polls and so ends with it; a handler is tried four
--   times, which is `range(_MAX_RETRIES + 1)`. Nothing else is bounded: no fuel is used.
-- - `KeyboardInterrupt` arrives while the consumer polls. The constructor of the producer, which only
--   reads a configuration, does not fail; columns of texts take what they are given, but for the
--   topic of the log; and a row of history is only written for a match that was found.
-- - Kafka, the auth service, `json`, the comparison of texts without case, password hashing and the
--   framework's reading of request fields are parameters.
-- - The steps of Platform use the requests as the views get them, with any user: what the class of
--   Authentication lets through is stated apart.
--
-- Not modelled: the auth service in Java, settings but for the authentication classes, routes, admin
-- pages, migrations, indexes, the lists of fields of output serializers, pagination and the rate
-- limits (declarations that a framework interprets). `TeamMemberViewSet` and `TournamentTeamViewSet`
-- have no code of their own; Platform lets them change their tables at will. `perform` has no step
-- for the admin pages, for the command seed_data or for the functions of the SQL module.
pub mod Base
pub mod Concurrency
pub mod Consumers
pub mod Events
pub mod Exec
pub mod Floats
pub mod Json
pub mod Models
pub mod Platform
pub mod Raises
pub mod Rating
pub mod Runtime
pub mod SeedData
pub mod SqlQueries
pub mod Teams
pub mod Tests
pub mod Tournaments
pub mod Views
