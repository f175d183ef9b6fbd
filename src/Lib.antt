-- ===== src/Lib.antt =====
-- go-goodwe: a Go library and daemon that read a GoodWe ET inverter over Modbus, store its sensors
-- in a database and watch the grid voltage. This library models the reading of sensors from the
-- request on the wire to the decoded value, discovery, the voltage analysis, the database's
-- statements, the daemon's state machine and the handlers of the API that read the database.
--
-- The parts and how they interact. The daemon (pkg/daemon/daemon.go) connects to an inverter,
-- checks its serial number against the database, polls its sensors on a timer, stores them and
-- runs the voltage analysis (pkg/analysis/voltage.go). An inverter (et/et.go) looks a sensor up in
-- the registry (et/registry.go), reads the sensor's block of registers through a transport
-- (et/transport.go) and hands the bytes to the sensor's calculator. A transport
-- (et/dtls_transport.go, et/tcp_transport.go) frames the request, keeps one connection, reconnects
-- once, and parses the response.
--
-- Base: lists, what a query picks of one, numbers, text and Go's (value, error) pairs. An error is the text of its message,
--   which is all that the program reads of an error; an index out of range is the result `panic`.
-- Modbus: Crc is calculateCRC16; Message has the error texts, isIllegalDataAddress and
--   isConnClosed; Rtu is the request of the DTLS doRead and parseModbusBulkResponse; Tcp is
--   buildRequest and parseModbusTCPResponse.
-- Transport: Network is what package net and the DTLS library provide, as parameters; Session is
--   Connect, Close and ReadRegisters, whose text the two transports share; Dtls and Tcp are
--   dtlsTransport and tcpTransport with their doRead. A ReadRegisters gives up its lock around
--   Connect: what other goroutines do in these two gaps is a pair of functions on the shared
--   state.
-- Et: Value and Reader are the reader helpers of et/registry.go, Labels the dictionaries of
--   et/const.go, Registry the four registries and sensorLookup, Inverter Connect, Close and
--   ReadSensor of ETInverter, and Inverter/Bulk its GetSensors, whose context and order of ranging
--   over a map are parameters; Inverter/Info is its GetInfo, and Info decodeGoodweString. A
--   calculator is a closure in the source and a constructor with the closure's arguments here;
--   `calculate` runs it.
-- Analysis: Voltage is RunVoltageAnalysis over the interface VoltageStore.
-- Daemon: World has the inverter, the database, the clock and the fields of Daemon; Connect is
--   doConnect and verifyIdentity, Poll doPoll, Aggregate doAggregate and doStartupAggregation, Run
--   New and Run. `run n` is a run in which the timer fires n times before the context is
--   cancelled; it returns the delays that the timer was reset to.
-- Discovery: Probe, Model and Discover are discovery/discover.go over a UDP socket.
-- Db: the tables of pkg/db/store.go as lists of rows, and a function for each SQL statement on
--   them. Identity, Samples, Voltage, Prune, Aggregate and Query have the methods of Store; a method
--   is the sequence of its statements. Voltage.voltage_store fills the interface of the analysis.
-- Api: Response is writeJSON and writeJSONError; Health, Sensors, GridVoltage and GetAggregate are
--   the handlers of pkg/api/handler.go as functions of the query's texts and the state of what they
--   call; Downsample is its downsample.
-- Runs: concrete instances of the parameters, and runs of the code on concrete input.
--
-- Parameters. float64 is a record of the operations that the program uses, without a law. The
-- network, the database, the clock, the inverter of the daemon and discovery.Ping are records of
-- calls with an explicit state, without a law; a hypothesis of a theorem says what calls answer.
-- How stored numbers compare is a hypothesis of the theorems on the aggregation. Time stands in
-- nanoseconds from the epoch. SQLite compares the texts of the times that the driver writes, which
-- is the order of the times where all are in UTC; a request's `since` or `until` with another offset
-- is not modelled.
--
-- Bounds. Machine integers wrap where the source's type does: the transaction number at 2^16, the
-- sum of the PV powers at 2^32; the house consumption is an int64 sum that cannot overflow.
-- decodeBitmap has its 32 rounds. The decimal printer has one digit more than the value as fuel,
-- which no number uses up; downsample's loop has a round for each sample, and its index grows. Most
-- other loops are recursion on lists or on the number of firings.
--
-- The database's engine is a record: which statements fail, when the context is cancelled, the
-- order of ORDER BY sampled_at DESC, AVG, and the format of a time. A statement that fails changes
-- nothing. A selection without an order takes the rows with the lowest numbers first. The loops of
-- the pruning delete a row in every round but the last, so a round more than there are rows is
-- enough; the loop over the buckets has a round for each nanosecond, and its time grows.
--
-- Not modelled: opening the database and its migrations; the JSON text, the routes and the
-- middleware of pkg/api/handler.go; the dashboard; the commands. Logging is left out everywhere. A map is walked in an order that is a parameter where it matters (the
-- sensors of a poll). The goroutine of the aggregation loop, which shares the database with the
-- poll loop but no field of Daemon, is not run beside it. An interval or a rated power below zero
-- is not modelled.
pub mod Base
pub mod Modbus
pub mod Transport
pub mod Et
pub mod Discovery
pub mod Analysis
pub mod Daemon
pub mod Db
pub mod Api
mod Runs
